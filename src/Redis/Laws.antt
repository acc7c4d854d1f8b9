-- ===== src/Redis/Laws.antt =====
-- Laws of the hash: a field that is set is read back, the others stay, and counts of names.
use local_life_go.Prelude.{
  ℕ, ◌+◌, ◌≡◌, inl, inr, Bool, false, none, some, [], ◌∷◌, arith, if◌then◌else◌, Bool-cases, Text,
  same_text, same_text_refl, same_text_sound,
}
use local_life_go.Redis.{Hash, hget, hset}

pub hget-hset_self : (name v : Text) (h : Hash) → hget name (hset name v h) ≡ some v
unfolding hget hset
hget-hset_self name v [] = ground (arith, same_text_refl name)
hget-hset_self name v ((field, w) ∷ h) = ground (arith, hget-hset_self name v h)

pub hget-hset_ne :
    (other name v : Text) (h : Hash)
    → same_text name other ≡ false
    → hget other (hset name v h) ≡ hget other h
unfolding hget hset
hget-hset_ne other name v [] ne = ground arith
hget-hset_ne other name v ((field, w) ∷ h) ne = elim (Bool-cases (same_text field name)) [
  | inl e ↦ rw e (rw (same_text_sound field name e, ne))
  | inr d ↦ rw d (ground (arith, hget-hset_ne other name v h ne))
]

-- How many fields have a name that passes a test.
abbrev pub named : (Text → Bool) → Hash → ℕ
named p [] = 0
named p ((field, _) ∷ h) = (if p field then 1 else 0) + named p h

pub named-hset_new :
    (p : Text → Bool) (name v : Text) (h : Hash)
    → hget name h ≡ none
    → named p (hset name v h) ≡ named p h + (if p name then 1 else 0)
unfolding hget hset
named-hset_new p name v [] e = ground arith
named-hset_new p name v ((field, w) ∷ h) e = ground (arith, named-hset_new p name v h)

pub named-hset_old :
    (p : Text → Bool) (name v : Text) (h : Hash) (old : Text)
    → hget name h ≡ some old
    → named p (hset name v h) ≡ named p h
unfolding hget hset
named-hset_old p name v [] old e = cc
named-hset_old p name v ((field, w) ∷ h) old e = ground (arith, named-hset_old p name v h old)
