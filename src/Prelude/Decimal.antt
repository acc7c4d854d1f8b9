-- ===== src/Prelude/Decimal.antt =====
-- Decimal numerals as strconv and Lua read and write them: FormatUint, ParseUint and ParseInt
-- at base 10 and 64 bits.
use Prim.Native.Nat.{ℕ, zero, suc, ◌+◌, ◌-◌, ◌*◌, ◌/◌, ◌%◌, ◌<◌}
use mathlib.Core.Path.{◌≡◌, refl, ◌∙◌}
use mathlib.Core.Bool.{Bool, true, false, ◌&&◌, ◌||◌}
use mathlib.Core.List.{[], ◌∷◌}
use mathlib.Core.Option.{Option, none, some}
use native.Mathlib.Omega.{arith}
use local_life_go.Prelude.Tests.{ltb, leb, ◌==◌, if◌then◌else◌}
use mathlib.Core.Logic.{◌↔◌}
use local_life_go.Prelude.Lists.{all}
use local_life_go.Prelude.Strings.{Text}
use local_life_go.Prelude.Integers.{ℤ, pos, negsuc}

abbrev pub is_digit : ℕ → Bool
is_digit c = leb b'0' c && leb c b'9'

-- Least significant digit last; the fuel exceeds the number of digits.
format_from : ℕ → ℕ → Text → Text
format_from zero n rest = (b'0' + n % 10) ∷ rest
format_from (suc f) n rest =
    let more = format_from f (n / 10) ((b'0' + n % 10) ∷ rest) in
    if ltb n 10 then (b'0' + n) ∷ rest else more

unfoldable pub format_uint : ℕ → Text
unfolding format_from
format_uint n = format_from n n []

digits_from : ℕ → Text → Option ℕ
digits_from acc [] = some acc
digits_from acc (c ∷ cs) =
    let more = digits_from (acc * 10 + (c - b'0')) cs in if is_digit c then more else none

-- A run of at least one digit.
unfoldable pub digits : Text → Option ℕ
unfolding digits_from
digits [] = none
digits (c ∷ cs) = digits_from 0 (c ∷ cs)

abbrev below : ℕ → Option ℕ → Option ℕ
below limit none = none
below limit (some n) = if ltb n limit then some n else none

unfoldable pub parse_uint : Text → Option ℕ
unfolding digits
parse_uint s = below 18446744073709551616 (digits s)

digits-format_from :
    (f n : ℕ) (rest : Text) → n < suc f → digits_from 0 (format_from f n rest) ≡ digits_from n rest
unfolding digits_from format_from
digits-format_from zero n rest h = ground arith
digits-format_from (suc f) n rest h =
    ground (arith, digits-format_from f (n / 10) ((b'0' + n % 10) ∷ rest))

-- What `format_from` prints is never empty.
is_nonempty : Text → Bool
is_nonempty [] = false
is_nonempty (_ ∷ _) = true

format_from-nonempty : (f n : ℕ) (rest : Text) → is_nonempty (format_from f n rest) ≡ true
unfolding format_from is_nonempty
format_from-nonempty zero n rest = refl
format_from-nonempty (suc f) n rest =
    ground (arith, format_from-nonempty f (n / 10) ((b'0' + n % 10) ∷ rest))

digits-nonempty : (s : Text) → is_nonempty s ≡ true → digits s ≡ digits_from 0 s
unfolding digits is_nonempty
digits-nonempty [] h = cc
digits-nonempty (_ ∷ _) h = refl

-- What is printed reads back.
pub digits-format_uint : (n : ℕ) → digits (format_uint n) ≡ some n
unfolding format_uint
digits-format_uint n =
    digits-nonempty (format_from n n []) (format_from-nonempty n n [])
    ∙ digits-format_from n n [] (omega arith)
    ∙ unfold digits_from in refl

pub parse_uint-format_uint :
    (n : ℕ) → n < 18446744073709551616 → parse_uint (format_uint n) ≡ some n
unfolding parse_uint
parse_uint-format_uint n h = rw (digits-format_uint n) (ground arith)

digits_from-all : (acc : ℕ) (s : Text) (n : ℕ) → digits_from acc s ≡ some n → all is_digit s ≡ true
unfolding digits_from
digits_from-all acc [] n h = refl
digits_from-all acc (c ∷ cs) n h = ground (arith, digits_from-all (acc * 10 + (c - b'0')) cs n)

-- A text that reads as a number has nothing but digits.
pub digits-all : (s : Text) (n : ℕ) → digits s ≡ some n → all is_digit s ≡ true
unfolding digits
digits-all [] n h = refl
digits-all (c ∷ cs) n h = digits_from-all 0 (c ∷ cs) n h

below_iff :
    (limit : ℕ) (o : Option ℕ) (n : ℕ) → (below limit o ≡ some n) ↔ ((o ≡ some n) × (n < limit))
below_iff limit none n = (λ h. absurd (cc), λ h. absurd (cc h.0))
below_iff limit (some k) n = (λ h. ground arith, λ h. ground arith)

pub parse_uint_iff :
    (s : Text) (n : ℕ)
    → (parse_uint s ≡ some n) ↔ ((digits s ≡ some n) × (n < 18446744073709551616))
unfolding parse_uint
parse_uint_iff s n = below_iff 18446744073709551616 (digits s) n

pub parse_uint-bound : (s : Text) {n : ℕ} → parse_uint s ≡ some n → n < 18446744073709551616
unfolding parse_uint
parse_uint-bound s h = ground arith

-- Two numbers that print alike are equal.
pub format_uint_injective : (m n : ℕ) → format_uint m ≡ format_uint n → m ≡ n
format_uint_injective m n h = cc (digits-format_uint m, digits-format_uint n)

-- A sign, and then a magnitude within int64.
abbrev signed : ℕ → Option ℕ → Option ℤ
signed c none = none
signed c (some n) =
    if c == b'-'
    then (if leb n 9223372036854775808
        then (if n == 0 then some (pos 0) else some (negsuc (n - 1)))
        else none)
    else (if ltb n 9223372036854775808 then some (pos n) else none)

-- strconv.ParseInt(s, 10, 64)
unfoldable pub parse_int : Text → Option ℤ
unfolding digits
parse_int [] = none
parse_int (c ∷ cs) =
    if c == b'-' || c == b'+' then signed c (digits cs) else signed b'+' (digits (c ∷ cs))

-- A run of digits needs no sign.
pub parse_int-digits :
    (s : Text) (n : ℕ) → digits s ≡ some n → n < 9223372036854775808 → parse_int s ≡ some (pos n)
unfolding parse_int digits
parse_int-digits [] n e h = cc
parse_int-digits (c ∷ cs) n e h =
    let leads : is_digit c ≡ true = ground arith in
    let no_sign : (c == b'-' || c == b'+') ≡ false = ground arith in rw (no_sign, e) (ground arith)
