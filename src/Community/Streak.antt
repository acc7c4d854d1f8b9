-- ===== src/Community/Streak.antt =====
-- The streak that is shown is the number of days signed in a row up to today.
use local_life_go.Prelude.{
  zero, ◌/◌, ℕ, suc, ◌-◌, ◌≤◌, ◌≡◌, refl, ap, Bool, true, arith, if◌then◌else◌, ltb, Bool-cases,
  same_text_refl,
}
use local_life_go.Effects.{ok, Reply, done, Reply-cases}
use local_life_go.Community.{SignState, Today, Signs, set_bit, field, count_streak, sign, state_of}

-- The days signed in a row that end with the n-th day of the month.
abbrev pub in_a_row : ℕ → (ℕ → Bool) → ℕ
in_a_row zero signed = 0
in_a_row (suc n) signed = let before = in_a_row n signed in if signed n then suc before else 0

count_streak-field : (n : ℕ) (bits : ℕ → Bool) → count_streak n (field n bits) ≡ in_a_row n bits
unfolding count_streak field
count_streak-field zero bits = refl
count_streak-field (suc n) bits =
    let low = bits n in
    let half : field (suc n) bits / 2 ≡ field n bits = ground (arith, Bool-cases (bits n)) in
    ground (arith, half, ap (count_streak n) half, count_streak-field n bits, Bool-cases (bits n))

-- What a call that succeeds shows: the days signed in a row up to today, as they stand after the
-- call, and signed exactly if that is not 0.
pub sign-streak :
    (set got : Reply) (today : Today) (id : ℕ) (write : Bool) (signs : Signs) (shown : SignState)
    → (sign set got today id write signs).0 ≡ ok shown
    → (shown.streak ≡ in_a_row today.day ((sign set got today id write signs).1 id today.month))
      × (shown.signed ≡ ltb 0 shown.streak)
      × (shown.date ≡ today.date)
unfolding sign state_of
sign-streak set got today id write signs shown h = ground (
  arith,
  h,
  count_streak-field today.day (signs id today.month),
  count_streak-field today.day (set_bit id today.month (today.day - 1) signs id today.month),
  Bool-cases write,
  Reply-cases set,
  Reply-cases got,
)

last_signed : (n : ℕ) (signed : ℕ → Bool) → 1 ≤ n → signed (n - 1) ≡ true → 1 ≤ in_a_row n signed
last_signed zero signed u e = absurd (omega arith)
last_signed (suc n) signed u e =
    let same : signed (suc n - 1) ≡ signed n = ap signed {x = suc n - 1} {y = n} (omega arith) in
    ground (arith, e, same)

signed_in :
    (id : ℕ) (today : Today) (signs : Signs)
    → 1 ≤ today.day
    → 1 ≤ in_a_row today.day (set_bit id today.month (today.day - 1) signs id today.month)
signed_in id today signs u =
    last_signed today.day (set_bit id today.month (today.day - 1) signs id today.month) u
      (ground (arith, same_text_refl today.month))

-- Signing in counts: after a call that signs in on a day of the month succeeds, today is signed and the
-- streak is at least one day.
pub sign-signed :
    (got : Reply) (today : Today) (id : ℕ) (signs : Signs) (shown : SignState)
    → 1 ≤ today.day
    → (sign done got today id true signs).0 ≡ ok shown
    → (shown.signed ≡ true) × (1 ≤ shown.streak)
unfolding sign state_of
sign-signed got today id signs shown u h = ground (
  arith,
  h,
  signed_in id today signs u,
  count_streak-field today.day (set_bit id today.month (today.day - 1) signs id today.month),
  Reply-cases got,
)
