-- ===== src/Handler/Middleware.antt =====
-- internal/middleware/auth.go and http.go, and pkg/requestid as far as they use it.
use local_life_go.Prelude.{
  ℕ, suc, zero, ◌-◌, Bool, true, not, ◌&&◌, ◌||◌, Option, none, some, List, [], ◌∷◌, Text, bytes,
  same_text, ltb, leb, ◌==◌, length, all, map, if◌then◌else◌, ◌+◌,
}
use local_life_go.AppError.{Kind, Fault}
use local_life_go.Effects.{Result, ok, err, M}
use local_life_go.Handler.{Scope, Request, Context, Handler, fail, set_header}

-- unicode.IsSpace: the white spaces of one, two and three bytes in UTF-8.
unfoldable pub is_space : ℕ → Bool
is_space a = (leb 9 a && leb a 13) || a == 32

unfoldable pub is_space_pair : ℕ → ℕ → Bool
is_space_pair a b = a == 194 && (b == 133 || b == 160)

unfoldable pub is_space_triple : ℕ → ℕ → ℕ → Bool
is_space_triple a b c =
    (a == 225 && b == 154 && c == 128)
    || (a == 226 && b == 128 && ((leb 128 c && leb c 138) || c == 168 || c == 169 || c == 175))
    || (a == 226 && b == 129 && c == 159)
    || (a == 227 && b == 128 && c == 128)

-- The bytes that a white space at the start of a text takes, 0 if there is none. No other character
-- has such bytes in it.
unfoldable pub space_width : Text → ℕ
unfolding is_space is_space_pair is_space_triple
space_width [] = 0
space_width (a ∷ []) = if is_space a then 1 else 0
space_width (a ∷ b ∷ []) = if is_space a then 1 else if is_space_pair a b then 2 else 0
space_width (a ∷ b ∷ c ∷ rest) =
    if is_space a
    then 1
    else if is_space_pair a b
    then 2
    else if is_space_triple a b c
    then 3
    else 0

abbrev pub add_word : Text × List Text → List Text
add_word ([], words) = words
add_word (b ∷ word, words) = (b ∷ word) ∷ words

-- strings.Fields: the word that a text starts with, and those that follow; the first bytes of the
-- text may be the rest of a white space.
unfoldable pub words_from : ℕ → Text → Text × List Text
unfolding space_width
words_from skip [] = ([], [])
words_from (suc skip) (b ∷ rest) = words_from skip rest
words_from zero (b ∷ rest) =
    let width = space_width (b ∷ rest) in
    let inner = words_from (width - 1) rest in
    if width == 0 then (b ∷ inner.0, inner.1) else ([], add_word inner)

unfoldable pub fields : Text → List Text
unfolding words_from
fields header = add_word (words_from 0 header)

abbrev pub lower : ℕ → ℕ
lower b = if leb 65 b && leb b 90 then b + 32 else b

-- strings.EqualFold for a word whose letters have no other case than the two of ASCII.
abbrev pub is_bearer : Text → Bool
is_bearer scheme = same_text (map lower scheme) (bytes "bearer")

abbrev pub token_of : List Text → Option Text
token_of (scheme ∷ token ∷ []) = if is_bearer scheme then some token else none
token_of _ = none

unfoldable pub bearer_token : Text → Option Text
unfolding fields
bearer_token header = token_of (fields header)

abbrev pub abort : Context → Context
abort c = record c { is_aborted = true }

module _ {S : Type 0} where
  abbrev pub no_store : Handler S → Handler S
  no_store next scope r c s =
      next scope r (set_header (bytes "Cache-Control") (bytes "no-store") c) s

  -- What follows the call of Authenticate.
  unfoldable pub admitted : Handler S → Scope → Request → Context → Result ℕ × S → Context × S
  admitted next scope r c (ok id, s) = next (record scope { user_id = id }) r c s
  admitted next scope r c (err e, s) = (abort (fail scope e c), s)

  -- What follows the call of BearerToken.
  unfoldable pub with_token :
      (Text → M S ℕ) → Handler S → Scope → Request → Context → S → Option Text → Context × S
  unfolding admitted
  with_token authenticate next scope r c s none =
      (abort (fail scope (Fault.new Kind.unauthorized) c), s)
  with_token authenticate next scope r c s (some token) =
      admitted next scope r c (authenticate token s)

  unfoldable pub require_auth : (Text → M S ℕ) → Handler S → Handler S
  unfolding with_token
  require_auth authenticate next scope r c s =
      with_token authenticate next scope r c s (bearer_token r.authorization)

abbrev pub is_id_byte : ℕ → Bool
is_id_byte b =
    (leb 97 b && leb b 122)
    || (leb 65 b && leb b 90)
    || (leb 48 b && leb b 57)
    || b == 45
    || b == 95
    || b == 46

unfoldable pub valid_id : Text → Bool
valid_id id = not (length id == 0) && not (ltb 64 (length id)) && all is_id_byte id

-- How the rest of the chain ends: it returns, or a handler panics with the context as it was then.
pub data Run (S : Type 0) : Type 0 where
  finished : Context × S → Run S
  panicked : Context × S → Run S

abbrev pub reset_body : Context → Context
reset_body c = record c { body = [] }

module _ {S : Type 0} where
  -- `over` is ctx.Err() after the handlers.
  unfoldable pub ended : Option Fault → Scope → Run S → Context × S
  unfolding fail
  ended over scope (panicked (c, s)) =
      (abort (fail scope (Fault.new Kind.internal) (reset_body c)), s)
  ended none scope (finished (c, s)) = (c, s)
  ended (some e) scope (finished (c, s)) =
      ((if ltb c.status 400 then fail scope e (reset_body c) else c), s)

  unfoldable pub http :
      Text
      → Option Fault
      → (Scope → Request → Context → S → Run S)
      → Request
      → Context
      → S
      → Context × S
  unfolding ended valid_id
  http random over next r c s =
      let id = if valid_id r.request_id then r.request_id else random in
      let scope : Scope = record { user_id = 0; request_id = id } in
      ended over scope (next scope r (set_header (bytes "X-Request-ID") id c) s)
