-- ===== src/Shop/Store.antt =====
-- The cache of shops (internal/cache/shop.go): one key with a time to live for each shop.
pub mod Laws
use local_life_go.Prelude.{
  ◌/◌, ℕ, suc, ◌+◌, ◌-◌, ◌*◌, ◌≤◌, ◌<◌, ◌≡◌, ◌≢◌, refl, sym, ap, subst, ◌∙◌, ◌⊎◌, inl, inr, Bool,
  true, false, not, ◌&&◌, ◌||◌, Option, none, some, List, [], ◌∷◌, ◌++◌, map, arith, if◌then◌else◌,
  ltb, leb, ◌==◌, Bool-cases, Option-cases, is_some, length, take, drop, select, count, find, any,
  all, All, sort_by, Text, bytes, same_text, same_text_refl, same_text_sound, digits, format_uint,
  is_digit,
}
use local_life_go.Effects.{
  Result, ok, err, M, pure, raise, fail_if, attempt, from_result, map_error, map_result, ◌>>=◌,
  ◌>>◌, Reply, done, failed, unacknowledged, answer, written, query, send, first_row, is_ok,
  is_unacknowledged, Result-cases, Reply-cases, check_context, wrap_error,
}
use local_life_go.AppError.{Kind, Fault, classified, describe, kind_text}
use local_life_go.Shop.{Shop, ShopCacheEntry, ShopSnapshot}
use local_life_go.Shop.Rebuild.{Loaded}

-- What Redis keeps under the keys: a value and the time at which it expires, in milliseconds.
abbrev pub Cells : Type 0
Cells = ℕ → Option (Text × ℕ)

-- GET
abbrev pub live : ℕ → Option (Text × ℕ) → Option Text
live now none = none
live now (some cell) = if ltb now cell.1 then some cell.0 else none

abbrev pub put_cell : ℕ → Option (Text × ℕ) → Cells → Cells
put_cell id cell cells other = if other == id then cell else cells other

unfoldable pub valid_shop_entry : ShopCacheEntry → ℕ → Bool
valid_shop_entry entry id =
    not (id == 0)
    && (entry.id == id)
    && not (entry.refresh_after == 0)
    && not (entry.expires_at == 0)
    && leb entry.refresh_after entry.expires_at
    && elim (entry.value) [ none ↦ true | some row ↦ (row.id == id) && not (row.type_id == 0) ]

-- `(current or '') ~= ARGV[1]`
abbrev pub or_empty : Option Text → Text
or_empty none = []
or_empty (some text) = text

-- encoding/json, on the record of the cache: `decode` is none on an error and none within on a null.
module _ (encode : ShopCacheEntry → Text) (decode : Text → Option (Option ShopCacheEntry)) where
  decoded : ℕ → Option (Option ShopCacheEntry) → Result (Option ShopCacheEntry)
  unfolding valid_shop_entry
  decoded id none = err Fault.other
  decoded id (some none) = err Fault.other
  decoded id (some (some entry)) =
      if valid_shop_entry entry id then ok (some entry) else err Fault.other

  loaded_value : ℕ → Option Text → Loaded
  unfolding decoded
  loaded_value id none = record { token = []; entry = ok none }
  loaded_value id (some text) = record { token = text; entry = decoded id (decode text) }

  unfoldable pub load : Reply → ℕ → ℕ → Cells → Loaded
  unfolding loaded_value
  load done now id cells = loaded_value id (live now (cells id))
  load (failed e) now id cells = record { token = []; entry = err e }
  load (unacknowledged e) now id cells = record { token = []; entry = err e }

  -- A `ttl` is a number of nanoseconds, which the script gets in milliseconds.
  unfoldable pub compare_and_set : Reply → ℕ → ℕ → Text → ShopCacheEntry → ℕ → M Cells Bool
  unfolding valid_shop_entry
  compare_and_set reply now id expected row ttl cells =
      if not (valid_shop_entry row id) || ltb ttl 1000000
      then (err Fault.other, cells)
      else send reply
          (λ before.
            if same_text (or_empty (live now (before id))) expected
            then (ok true, put_cell id (some (encode row, now + ttl / 1000000)) before)
            else (ok false, before))
          cells

unfoldable pub invalidate : Reply → ℕ → M Cells (Unit {0})
invalidate reply id = send reply (λ cells. (ok tt, put_cell id none cells))
