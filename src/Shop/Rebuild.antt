-- ===== src/Shop/Rebuild.antt =====
-- One background rebuild of a cache entry (rebuild of internal/service/shop_refresh.go): what it
-- answers, and what it publishes.
pub mod Laws
use local_life_go.Prelude.{
  ℕ, ◌+◌, ◌*◌, Bool, true, false, ◌&&◌, Option, none, some, if◌then◌else◌, ltb, is_some, Text,
  same_text,
}
use local_life_go.Effects.{Result, ok, err}
use local_life_go.AppError.{Kind, Fault, classified, kind_text}
use local_life_go.Shop.{Shop, ShopCacheEntry}

abbrev pub second : ℕ
second = 1000000000

abbrev pub minute : ℕ
minute = 60000000000

-- The entry that a rebuild publishes with the token of the snapshot that it read, and whether under
-- the lifetime of the service instead of that of the rebuild.
pub record Publication : Type 0 where
  pub token : Text
  pub entry : ShopCacheEntry
  pub on_background : Bool

pub record Rebuilt : Type 0 where
  pub outcome : Result Shop
  pub publication : Option Publication

-- The token is that of the snapshot even where the load failed.
pub record Loaded : Type 0 where
  pub token : Text
  pub entry : Result (Option ShopCacheEntry)

-- A completed fill that appeared since the request missed.
current : ℕ → ShopCacheEntry → Option (Result Shop)
current now entry =
    if ltb now entry.expires_at && ltb now entry.refresh_after
    then some (elim (entry.value) [ none ↦ err (Fault.new Kind.not_found) | some row ↦ ok row ])
    else none

unfoldable pub filled : ℕ → Result (Option ShopCacheEntry) → Option (Result Shop)
unfolding current
filled now (ok (some entry)) = current now entry
filled now (ok none) = none
filled now (err _) = none

fresh_entry : ℕ → Shop → ℕ → ℕ → ShopCacheEntry
fresh_entry id row now jitter = record {
  id = id;
  value = some row;
  refresh_after = now + (30 * minute + jitter);
  expires_at = now + (30 * minute + jitter) + 5 * minute;
}

absent_entry : ℕ → ℕ → ℕ → ShopCacheEntry
absent_entry id now jitter = record {
  id = id;
  value = none;
  refresh_after = now + (30 * second + jitter);
  expires_at = now + (30 * second + jitter);
}

postponed_entry : ℕ → ShopCacheEntry → ShopCacheEntry
postponed_entry now entry = record {
  id = entry.id;
  value = entry.value;
  refresh_after =
      if ltb entry.expires_at (now + 5 * second) then entry.expires_at else now + 5 * second;
  expires_at = entry.expires_at;
}

-- A failed refresh can postpone a retry, on an entry with a value that has not expired.
postponed : ℕ → Result (Option ShopCacheEntry) → Option ShopCacheEntry
unfolding postponed_entry
postponed now (ok (some entry)) =
    if is_some entry.value && ltb now entry.expires_at
    then some (postponed_entry now entry)
    else none
postponed now (ok none) = none
postponed now (err _) = none

abbrev is_not_found : Fault → Bool
is_not_found e = elim (classified e) [
  | some kind ↦ same_text (kind_text kind) (kind_text Kind.not_found)
  | none ↦ false
]

publish : Text → Bool → Option ShopCacheEntry → Option Publication
publish token on_background none = none
publish token on_background (some entry) =
    some (record { token = token; entry = entry; on_background = on_background })

after_query : ℕ → Loaded → ℕ → ℕ → Result Shop → Option Publication
unfolding publish fresh_entry absent_entry postponed
after_query id loaded now jitter (ok row) =
    publish loaded.token false (some (fresh_entry id row now jitter))
after_query id loaded now jitter (err e) =
    if is_not_found e
    then publish loaded.token false (some (absent_entry id now jitter))
    else publish loaded.token true (postponed now loaded.entry)

-- The error of the rebuild's own context replaces what the query gave.
abbrev bounded_by : Option Fault → Result Shop → Result Shop
bounded_by none r = r
bounded_by (some e) r = err e

-- `now` is read before the query and `later` after it; the query gives `stored`; `budget` is what the
-- rebuild's context says after it, and `stopped` whether the service has been stopped. The random
-- `jitter` is below 5 minutes for a shop and below 15 seconds for none.
unfoldable pub rebuild : ℕ → Loaded → ℕ → Result Shop → Option Fault → Bool → ℕ → ℕ → Rebuilt
unfolding filled after_query
rebuild id loaded now stored budget stopped later jitter = elim (filled now loaded.entry) [
  | some outcome ↦ record { outcome = outcome; publication = none }
  | none ↦ record {
    outcome = bounded_by budget stored;
    publication =
        if stopped then none else after_query id loaded later jitter (bounded_by budget stored);
  }
]
