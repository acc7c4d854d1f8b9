-- ===== src/Shop/Rebuild/Laws.antt =====
-- What a rebuild publishes, and what a request shows while it runs.
use local_life_go.Prelude.{ℕ, ◌<◌, ◌≡◌, Bool, true, Option, none, some, arith, Text}
use local_life_go.Effects.{Result, ok, err, map_result, Result-cases}
use local_life_go.AppError.{Fault}
use local_life_go.Shop.{Shop, ShopCacheEntry, ShopSnapshot, shop_view, detail}
use local_life_go.Shop.Rebuild.{Publication, Loaded, rebuild}
use local_life_go.Shop.Store.{valid_shop_entry}

-- A cached entry, where there is one, is one that the cache accepts for this shop.
abbrev pub IsCached : ℕ → Result (Option ShopCacheEntry) → Type 0
IsCached id (ok (some entry)) = valid_shop_entry entry id ≡ true
IsCached id (ok none) = Unit
IsCached id (err _) = Unit

-- A row that the query gives for this shop.
abbrev pub IsRow : ℕ → Result Shop → Type 0
IsRow id (ok row) = (row.id ≡ id) × (0 < row.type_id)
IsRow id (err _) = Unit

abbrev pub IsPublishable : ℕ → Text → Option Publication → Type 0
IsPublishable id token none = Unit
IsPublishable id token (some p) = (valid_shop_entry p.entry id ≡ true) × (p.token ≡ token)

-- Whatever a rebuild publishes, the cache accepts: for a shop with an identifier, a cached entry that
-- the cache accepted and a row of this shop, the entry that a rebuild publishes passes the test of the
-- cache, and it goes with the token of the entry that the rebuild read.
pub rebuild-valid_entry :
    (id : ℕ) (loaded : Loaded) (now : ℕ) (stored : Result Shop) (budget : Option Fault)
    (stopped : Bool) (later jitter : ℕ)
    → 0 < id
    → IsCached id loaded.entry
    → IsRow id stored
    → IsPublishable id loaded.token
        (rebuild id loaded now stored budget stopped later jitter).publication
unfolding rebuild valid_shop_entry
rebuild-valid_entry id loaded now stored budget stopped later jitter u c r =
    ground (arith, u, c, r, Result-cases loaded.entry, Result-cases stored)

-- A stale shop stays available: while the cached entry with a value has not expired, `Detail` shows
-- that value, whatever the refresh gives and however the context ends afterwards.
pub detail_available :
    (id now : ℕ) (snapshot : ShopSnapshot) (entry : ShopCacheEntry) (row : Shop)
    (after : Option Fault) (shared : Result Shop)
    → 0 < id
    → snapshot.entry ≡ some entry
    → entry.value ≡ some row
    → now < entry.expires_at
    → detail none none after now (ok snapshot) shared id ≡ ok (shop_view row)
unfolding detail
detail_available id now snapshot entry row after shared u s v w = rw (s, v) (ground arith)

-- With the cache unusable, `Detail` of a shop gives what the shared refresh gave, and nothing else.
pub detail-cold :
    (id now : ℕ) (e : Fault) (shared : Result Shop)
    → 0 < id
    → detail none none none now (err e) shared id ≡ map_result shop_view shared
unfolding detail
detail-cold id now e shared u = ground arith
