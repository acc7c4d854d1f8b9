-- ===== src/Examples/Shops.antt =====
-- Refreshes of the shop cache.
use local_life_go.Prelude.{
  ◌≤◌, ◌≡◌, true, ◌&&◌, Option, none, some, if◌then◌else◌, ◌==◌, length, count, Text, bytes,
}
use local_life_go.Effects.{ok}
use local_life_go.Shop.{Shop, ShopCacheEntry}
use local_life_go.Shop.Rebuild.{Loaded, Publication}
use local_life_go.Shop.Refresh.{Service, new_shop, refresh, is_of}
use local_life_go.Shop.Refresh.Laws.{Reach, initial, next, requested, refreshes_bounded}
use local_life_go.Shop.Store.{Cells}

abbrev busy : Service
busy = (refresh 3 new_shop).1

abbrev busy-Reach : Reach busy
busy-Reach = next new_shop (refresh 3 new_shop).1 initial (requested 3 new_shop)

refreshes_bounded_example :
    (length busy.jobs ≤ 64)
    × (count (is_of 3) busy.jobs ≤ 1)
    × (busy.drained ≡ (if busy.closed && (length busy.jobs == 0) then 1 else 0))
refreshes_bounded_example = refreshes_bounded busy 3 busy-Reach

abbrev cafe : Shop
cafe = record {
  id = 3;
  type_id = 1;
  name = bytes "cafe";
  address = bytes "1 road";
  longitude = 0;
  latitude = 0;
  created_at = 0;
  updated_at = 0;
}

-- A stale entry: it is due for a refresh, and expires later.
abbrev stale : ShopCacheEntry
stale = record { id = 3; value = some cafe; refresh_after = 1000000000; expires_at = 9000000000 }

abbrev loaded : Loaded
loaded = record { token = bytes "{}"; entry = ok (some stale) }

abbrev retried : Publication
retried = record {
  token = bytes "{}";
  entry = record { id = 3; value = some cafe; refresh_after = 7000000000; expires_at = 9000000000 };
  on_background = true;
}

-- A codec that knows one entry.
abbrev encode : ShopCacheEntry → Text
encode _ = bytes "{}"

abbrev decode : Text → Option (Option ShopCacheEntry)
decode _ = some (some stale)

abbrev no_cells : Cells
no_cells _ = none
