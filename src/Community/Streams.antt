-- ===== src/Community/Streams.antt =====
-- Entries of a stream in the order of their identifiers (internal/cache/community.go).
use local_life_go.Prelude.{
  ℕ, suc, zero, ◌≡◌, refl, ap, Bool, true, false, List, [], ◌∷◌, arith, take, drop, select, All,
  Bool-cases, inl, inr,
}
use local_life_go.Community.Messages.{Notice, is_later}

abbrev pub key_of : Notice → ℕ × ℕ
key_of entry = (entry.time, entry.number)

-- Later entries stand behind, as the server numbers them.
abbrev pub Ascending : List Notice → Type 0
Ascending [] = Unit
Ascending (x ∷ xs) = All (λ e. is_later (key_of x) e ≡ true) xs × Ascending xs

abbrev pub last_of : Notice → List Notice → Notice
last_of y [] = y
last_of y (z ∷ zs) = last_of z zs

is_later_trans :
    (a : ℕ × ℕ) (b c : Notice)
    → is_later a b ≡ true
    → is_later (key_of b) c ≡ true
    → is_later a c ≡ true
unfolding is_later
is_later_trans (t, n) b c h k = ground arith

is_later_asym : (a b : Notice) → is_later (key_of a) b ≡ true → is_later (key_of b) a ≡ false
unfolding is_later
is_later_asym a b h = ground arith

is_later_irrefl : (a : Notice) → is_later (key_of a) a ≡ false
unfolding is_later
is_later_irrefl a = ground arith

select-all : (p : Notice → Bool) (xs : List Notice) → All (λ e. p e ≡ true) xs → select p xs ≡ xs
select-all p [] h = refl
select-all p (x ∷ xs) h = rw h.0 (ap (λ t. x ∷ t) (select-all p xs h.1))

-- The last of some entries is one of them.
pub last_of-All :
    (P : Notice → Type 0) (n : ℕ) (y : Notice) (ys : List Notice)
    → P y
    → All P ys
    → P (last_of y (take n ys))
last_of-All P zero y ys p all_ys = p
last_of-All P (suc n) y [] p all_ys = p
last_of-All P (suc n) y (z ∷ zs) p all_ys = last_of-All P n z zs all_ys.0 all_ys.1

-- What is later than the last of the first entries are the others.
pub select-last :
    (n : ℕ) (y : Notice) (ys : List Notice)
    → Ascending (y ∷ ys)
    → select (is_later (key_of (last_of y (take n ys)))) (y ∷ ys) ≡ drop n ys
select-last zero y ys h = rw (is_later_irrefl y) (select-all (is_later (key_of y)) ys h.0)
select-last (suc n) y [] h = rw (is_later_irrefl y) refl
select-last (suc n) y (z ∷ zs) h =
    rw
      (is_later_asym y (last_of z (take n zs))
        (last_of-All (λ e. is_later (key_of y) e ≡ true) n z zs h.0.0 h.0.1))
      (select-last n z zs h.1)

-- Entries later than one that is later than another are among those later than the other.
pub select-select :
    (start : ℕ × ℕ) (l : Notice) (rows : List Notice)
    → is_later start l ≡ true
    → select (is_later (key_of l)) rows
      ≡ select (is_later (key_of l)) (select (is_later start) rows)
select-select start l [] h = refl
select-select start l (x ∷ xs) h = elim (Bool-cases (is_later (key_of l) x)) [
  | inl later ↦
      rw (later, is_later_trans start l x h later)
        (rw later (ap (λ t. x ∷ t) (select-select start l xs h)))
  | inr not_later ↦ elim (Bool-cases (is_later start x)) [
    | inl kept ↦ rw (not_later, kept) (rw not_later (select-select start l xs h))
    | inr dropped ↦ rw (not_later, dropped) (select-select start l xs h)
  ]
]

pub select-All :
    (P : Notice → Type 0) (p : Notice → Bool) (xs : List Notice) → All P xs → All P (select p xs)
select-All P p [] h = tt
select-All P p (x ∷ xs) h = elim (Bool-cases (p x)) [
  | inl kept ↦ rw kept (h.0, select-All P p xs h.1)
  | inr dropped ↦ rw dropped (select-All P p xs h.1)
]

pub select-Ascending :
    (p : Notice → Bool) (xs : List Notice) → Ascending xs → Ascending (select p xs)
select-Ascending p [] h = tt
select-Ascending p (x ∷ xs) h = elim (Bool-cases (p x)) [
  | inl kept ↦
      rw kept (select-All (λ e. is_later (key_of x) e ≡ true) p xs h.0, select-Ascending p xs h.1)
  | inr dropped ↦ rw dropped (select-Ascending p xs h.1)
]

pub select-satisfies : (p : Notice → Bool) (xs : List Notice) → All (λ e. p e ≡ true) (select p xs)
select-satisfies p [] = tt
select-satisfies p (x ∷ xs) = elim (Bool-cases (p x)) [
  | inl kept ↦ rw kept (kept, select-satisfies p xs)
  | inr dropped ↦ rw dropped (select-satisfies p xs)
]
