-- ===== src/Redis.antt =====
-- The Redis data that the seckill scripts (internal/cache/lua/seckill_*.lua) read and write: hashes,
-- streams, and keys that may be missing or hold another type.
pub mod Laws
use local_life_go.Prelude.{
  [], some, same_text, not, none, if◌then◌else◌, Bool, Option, ◌∷◌, List, Text, ℕ,
}

pub data Key (A : Type 0) : Type 0 where
  absent other_type : Key A
  holds : A → Key A

-- The fields of a hash, and the pairs of a stream entry.
abbrev pub Hash : Type 0
Hash = List (Text × Text)

unfoldable pub hget : Text → Hash → Option Text
hget name [] = none
hget name ((field, v) ∷ h) = if same_text field name then some v else hget name h

unfoldable pub hset : Text → Text → Hash → Hash
hset name v [] = (name, v) ∷ []
hset name v ((field, w) ∷ h) =
    if same_text field name then (field, v) ∷ h else (field, w) ∷ hset name v h

pub record Entry : Type 0 where
  pub id : Text
  pub fields : Hash

-- `pending` are the entries delivered to the group and not acknowledged.
pub record Stream : Type 0 where
  pub entries : List Entry
  pub groups : List Text
  pub pending : List Text

abbrev pub not_text : Text → Text → Bool
not_text a b = not (same_text a b)
