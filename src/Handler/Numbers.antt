-- ===== src/Handler/Numbers.antt =====
-- The numbers and pages that the handlers accept, and the token that RequireAuth reads.
use local_life_go.Prelude.{
  ℕ, ◌≤◌, ◌<◌, ◌≡◌, ◌↔◌, Bool, true, false, not, Option, none, some, List, [], ◌∷◌, Text, bytes,
  arith, if◌then◌else◌, all, is_digit, digits, parse_uint, digits-all, parse_uint_iff,
}
use local_life_go.Effects.{Result, ok, err, M, from_result, pure, ◌>>=◌}
use local_life_go.Paging.{valid_page}
use local_life_go.Handler.{Request}
use local_life_go.Handler.Requests.{
  max_uint, invalid, positive, shop_positive_number, values_of, number_of, page_number,
  community_page,
}

-- What shopPositiveNumber accepts.
abbrev IsNumeral : Text → ℕ → ℕ → Type 0
IsNumeral value max n = (digits value ≡ some n) × (0 < n) × (n ≤ max)

positive_iff :
    (max : ℕ) (parsed : Option ℕ) (n : ℕ)
    → (positive max parsed ≡ ok n) ↔ ((parsed ≡ some n) × (0 < n) × (n ≤ max))
unfolding positive
positive_iff max none n = (λ h. absurd (cc), λ h. absurd (cc h.0))
positive_iff max (some k) n = (λ h. ground arith, λ h. ground arith)

past_test :
    (good : Bool) (x : Result ℕ) (n : ℕ) → (if not good then err invalid else x) ≡ ok n → x ≡ ok n
past_test true x n h = h
past_test false x n h = absurd (cc)

-- Under a limit of 64 bits a number is accepted exactly if it is written in decimal digits only and
-- lies between 1 and the limit; it is the number that the digits write.
pub shop_positive_number_iff :
    (value : Text) (max n : ℕ)
    → max ≤ max_uint
    → (shop_positive_number value max ≡ ok n) ↔ IsNumeral value max n
unfolding shop_positive_number
shop_positive_number_iff value max n h = (
  λ e.
      (let (parsed, low, high) =
          (positive_iff max (parse_uint value) n).0
            (past_test (all is_digit value) (positive max (parse_uint value)) n e) in
        (((parse_uint_iff value n).0 parsed).0, low, high)),
  λ e.
      (let (written, low, high) = e in
        rw (digits-all value n written) (
          (positive_iff max (parse_uint value) n).1
            ((parse_uint_iff value n).1 (written, omega (arith, h, high)), low, high))),
)

number_of-bound :
    (fallback max n : ℕ) (values : Option (List Text))
    → number_of fallback max values ≡ ok n
    → 0 < fallback
    → fallback ≤ max
    → (0 < n) × (n ≤ max)
unfolding number_of shop_positive_number
number_of-bound fallback max n none e low high = ground arith
number_of-bound fallback max n (some []) e low high = absurd (cc)
number_of-bound fallback max n (some (value ∷ [])) e low high =
    let (_, low', high') =
      (positive_iff max (parse_uint value) n).0
        (past_test (all is_digit value) (positive max (parse_uint value)) n e) in
    (low', high')
number_of-bound fallback max n (some (value ∷ other ∷ rest)) e low high = absurd (cc)

first_ok :
    {S Q B : Type 0} (m : Result Q) (f : Q → M S B) (s : S) (b : B)
    → ((from_result m >>= f) s).0 ≡ ok b
    → (q : Q) × ((f q s).0 ≡ ok b)
first_ok (ok q) f s b h = (q, h)
first_ok (err e) f s b h = absurd (cc)

both_ok :
    {S : Type 0} (a b : Result ℕ) (s : S) (m n : ℕ)
    → (◌>>=◌ {B = ℕ × ℕ}
        (from_result a)
        (λ x. ◌>>=◌ {B = ℕ × ℕ} (from_result b) (λ y. pure (x, y)))
        s).0
      ≡ ok (m, n)
    → (a ≡ ok m) × (b ≡ ok n)
both_ok (ok x) (ok y) s m n h = (cc, cc)
both_ok (ok x) (err e) s m n h = absurd (cc)
both_ok (err e) b s m n h = absurd (cc)

-- A page that the handlers take from a query is one that the services serve.
pub community_page-valid_page :
    {S : Type 0} (r : Request) (s : S) (page size : ℕ)
    → (community_page r s).0 ≡ ok (page, size)
    → valid_page page size ≡ true
unfolding community_page page_number
community_page-valid_page r s page size e =
    let (query, numbers) =
      first_ok (elim r.query [ none ↦ err invalid | some query ↦ ok query ]) page_number s
        (page, size) e in
    let (a, b) =
      both_ok (number_of 1 1000 (values_of (bytes "page") query))
        (number_of 10 50 (values_of (bytes "page_size") query)) s page size numbers in
    let (low, high) =
      number_of-bound 1 1000 page (values_of (bytes "page") query) a (omega arith) (omega arith) in
    let (low', high') =
      number_of-bound 10 50 size (values_of (bytes "page_size") query) b (omega arith)
        (omega arith) in
    ground arith
