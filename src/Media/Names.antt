-- ===== src/Media/Names.antt =====
-- The names of uploaded images (internal/service/media.go).

use local_life_go.Prelude.{
  inr, ◌∙◌, ◌-◌, inl, ◌%◌, refl, Bool-cases, ◌/◌, ap, length-append, [], arith, if◌then◌else◌, ◌∷◌,
  ◌*◌, drop, ◌++◌, true, take, bytes, ◌≡◌, length, all, same_text, Text, ◌<◌, ℕ, zero, suc,
}
use local_life_go.Media.{
  is_jpeg, extension, media_type, hex_digit, is_hex, name_of, hex, ImageConfig, is_media_name,
}
use mathlib.Core.List.{append_assoc}

length-hex : (bs : Text) → length (hex bs) ≡ 2 * length bs
unfolding hex
length-hex [] = refl
length-hex (b ∷ bs) = omega (arith, length-hex bs)

is_hex-hex_digit : (n : ℕ) → n < 16 → is_hex (hex_digit n) ≡ true
is_hex-hex_digit n h = ground arith

all-hex : (bs : Text) → all is_hex (hex bs) ≡ true
unfolding hex
all-hex [] = refl
all-hex (b ∷ bs) = ground (
  arith,
  is_hex-hex_digit (b / 16 % 16) (omega arith),
  is_hex-hex_digit (b % 16) (omega arith),
  all-hex bs,
)

take-append : (n : ℕ) (s t : Text) → length s ≡ n → take n (s ++ t) ≡ s
take-append zero [] t e = refl
take-append zero (c ∷ s) t e = absurd (omega arith)
take-append (suc n) [] t e = absurd (omega arith)
take-append (suc n) (c ∷ s) t e = ap (λ r. c ∷ r) (take-append n s t (omega arith))

drop-append : (n : ℕ) (s t : Text) → length s ≡ n → drop n (s ++ t) ≡ t
drop-append zero [] t e = refl
drop-append zero (c ∷ s) t e = absurd (omega arith)
drop-append (suc n) [] t e = absurd (omega arith)
drop-append (suc n) (c ∷ s) t e = drop-append n s t (omega arith)

suffix_of : ImageConfig → Text
suffix_of cfg = bytes "." ++ extension cfg

name_of-append :
    (cfg : ImageConfig) (random : Text) → name_of cfg random ≡ hex random ++ suffix_of cfg
unfolding name_of suffix_of
name_of-append cfg random = append_assoc (hex random) (bytes ".") (extension cfg)

-- Each name that Save makes is one that Read and the blogs accept.
pub name_of-is_media_name :
    (cfg : ImageConfig) (random : Text)
    → length random ≡ 16
    → is_media_name (name_of cfg random) ≡ true
unfolding is_media_name suffix_of same_text
name_of-is_media_name cfg random e =
    let n : length (hex random) ≡ 32 = omega (arith, length-hex random) in
    rw
      (
        name_of-append cfg random,
        take-append 32 (hex random) (suffix_of cfg) n,
        drop-append 32 (hex random) (suffix_of cfg) n,
      )
      (ground (
        arith,
        all-hex random,
        n,
        length-append (hex random) (suffix_of cfg),
        Bool-cases (is_jpeg cfg),
      ))

media_type-append :
    (s t : Text)
    → length t ≡ 4
    → media_type (s ++ t)
      ≡ (if same_text t (bytes ".jpg") then bytes "image/jpeg" else bytes "image/png")
media_type-append s t e =
    let n : length (s ++ t) - 4 ≡ length s = omega (arith, length-append {0} s t) in
    rw (n, drop-append (length s) s t refl) refl

abbrev pub type_of : ImageConfig → Text
type_of cfg = if is_jpeg cfg then bytes "image/jpeg" else bytes "image/png"

pub media_type-name_of :
    (cfg : ImageConfig) (random : Text) → media_type (name_of cfg random) ≡ type_of cfg
unfolding suffix_of same_text
media_type-name_of cfg random = rw (name_of-append cfg random) (elim (Bool-cases (is_jpeg cfg)) [
  | inl jpeg ↦ media_type-append (hex random) (suffix_of cfg) (ground (arith, jpeg)) ∙ rw jpeg refl
  | inr png ↦ media_type-append (hex random) (suffix_of cfg) (ground (arith, png)) ∙ rw png refl
])
