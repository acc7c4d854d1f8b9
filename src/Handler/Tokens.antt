-- ===== src/Handler/Tokens.antt =====
-- The token that RequireAuth of internal/middleware/auth.go reads.
use local_life_go.Prelude.{
  ℕ, ◌≡◌, refl, Bool, true, false, ◌&&◌, some, same_text, [], ◌∷◌, ◌++◌, Text, arith, ◌==◌,
}
use local_life_go.Handler.Middleware.{
  is_space, is_space_pair, is_space_triple, space_width, add_word, words_from, fields, is_bearer,
  bearer_token,
}

-- A word: a text without white space in it.
unfoldable pub is_word : Text → Bool
is_word [] = true
is_word (b ∷ rest) = (space_width (b ∷ rest) == 0) && is_word rest

split_word :
    (b : ℕ) (rest : Text)
    → is_word (b ∷ rest) ≡ true
    → (space_width (b ∷ rest) ≡ 0) × (is_word rest ≡ true)
unfolding is_word
split_word b rest h = (ground arith, ground arith)

words_from-word : (word : Text) → is_word word ≡ true → words_from 0 word ≡ (word, [])
unfolding words_from is_word
words_from-word [] h = refl
words_from-word (b ∷ rest) h =
    let (none_here, more) = split_word b rest h in
    rw none_here (rw (words_from-word rest more) refl)

-- No space of several bytes has a blank in it.
is_space_pair-blank : (a : ℕ) → is_space_pair a 32 ≡ false
unfolding is_space_pair
is_space_pair-blank a = ground arith

is_space_triple-blank : (a c : ℕ) → is_space_triple a 32 c ≡ false
unfolding is_space_triple
is_space_triple-blank a c = ground arith

is_space_triple-last : (a b : ℕ) → is_space_triple a b 32 ≡ false
unfolding is_space_triple
is_space_triple-last a b = ground arith

space_width-blank :
    (b : ℕ) (word rest : Text)
    → space_width (b ∷ word) ≡ 0
    → space_width (b ∷ word ++ (32 ∷ rest)) ≡ 0
unfolding space_width
space_width-blank b [] [] h = rw (is_space_pair-blank b) (ground arith)
space_width-blank b [] (c ∷ rest) h =
    rw (is_space_pair-blank b, is_space_triple-blank b c) (ground arith)
space_width-blank b (c ∷ []) rest h = rw (is_space_triple-last b c) (ground arith)
space_width-blank b (c ∷ d ∷ word) rest h = h

space_width-space : (rest : Text) → space_width (32 ∷ rest) ≡ 1
unfolding space_width is_space
space_width-space [] = refl
space_width-space (b ∷ []) = refl
space_width-space (b ∷ c ∷ rest) = refl

words_from-blank :
    (word rest : Text)
    → is_word word ≡ true
    → words_from 0 (word ++ (32 ∷ rest)) ≡ (word, add_word (words_from 0 rest))
unfolding words_from is_word
words_from-blank [] rest h = rw (space_width-space rest) refl
words_from-blank (b ∷ word) rest h =
    let (none_here, more) = split_word b word h in
    rw (space_width-blank b word rest none_here) (rw (words_from-blank word rest more) refl)

-- RequireAuth reads the very token that a client sends as `Bearer token`, however the scheme is
-- written.
pub bearer_token-words :
    (scheme : Text) (t : ℕ) (token : Text)
    → is_bearer scheme ≡ true
    → is_word scheme ≡ true
    → is_word (t ∷ token) ≡ true
    → bearer_token (scheme ++ (32 ∷ t ∷ token)) ≡ some (t ∷ token)
unfolding bearer_token fields same_text
bearer_token-words [] t token s w v = absurd (cc)
bearer_token-words (b ∷ scheme) t token s w v =
    rw (words_from-blank (b ∷ scheme) (t ∷ token) w)
      (rw (words_from-word (t ∷ token) v) (rw s refl))
