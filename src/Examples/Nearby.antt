-- ===== src/Examples/Nearby.antt =====
-- A small index of shops (internal/service/geo.go).
use local_life_go.Prelude.{
  refl, none, All, select, length, map, some, ◌⊎◌, digits, true, ◌∷◌, [], ◌≡◌, false, List, Text,
  parse_uint, bytes, ℕ,
}
use local_life_go.Geo.{
  row_of, GeoHit, NearbyShop, Member, GeoQuery, Floats, Search, World, Environment, shops, index,
  by_ids, nearby, rebuild, nearby_index, bad_query, after_hits, nearby_items, hits_of,
}
use local_life_go.Effects.{is_unacknowledged, ok, is_ok, done}
use local_life_go.Shop.{Shop, shop_view}
use local_life_go.Geo.Rebuild.{rebuild_publishes, rows_of, Published}
use local_life_go.Geo.Laws.{nearby_ok, IsCurrent, is_listed, hit_place, place_of}

-- Every number is in range.
abbrev lax : Floats
lax = record { is_nan = λ _. false; is_inf = λ _. false; le = λ _ _. true; float_of = λ _. 0 }

-- The index names a shop that has moved to another category, and one that is gone.
abbrev search : Search
search _ _ =
    record { name = bytes "2"; distance = 10 }
    ∷ record { name = bytes "1"; distance = 20 }
    ∷ record { name = bytes "9"; distance = 30 }
    ∷ []

abbrev shop : ℕ → ℕ → Shop
shop id type_id = record {
  id = id;
  type_id = type_id;
  name = bytes "shop";
  address = [];
  longitude = 0;
  latitude = 0;
  created_at = 0;
  updated_at = 0;
}

abbrev member : Text → Member
member name = record { name = name; longitude = 0; latitude = 0 }

abbrev world : World
world = record {
  catalogue = record { shop_types = []; shops = shop 1 7 ∷ shop 2 8 ∷ [] };
  indexes = λ _. record {
    index = some (member (bytes "1") ∷ member (bytes "2") ∷ member (bytes "9") ∷ []);
    ready = some (bytes "3");
  };
}

abbrev environment : Environment
environment = record { selected = done; reply = done; batches = λ _. done; expired = false }

abbrev asked : GeoQuery
asked = record { type_id = 7; longitude = 0; latitude = 0; radius = 0; limit = 5 }

abbrev shown : List NearbyShop
shown = record { shop = shop_view (shop 1 7); distance = 20 } ∷ []

nearby_ok_example :
    (hits : List GeoHit) × ((nearby_index lax done search asked world.indexes).0 ≡ ok hits)
    × (map place_of shown
        ≡ map hit_place (select (λ hit. is_listed 7 (row_of hit.id world.catalogue.shops)) hits))
    × All (IsCurrent 7 world.catalogue.shops) shown
    × ((nearby lax (shops environment) (index lax search environment) none asked world).1 ≡ world)
unfolding nearby index shops nearby_index after_hits by_ids nearby_items hits_of bad_query shop_view
    parse_uint digits
nearby_ok_example = nearby_ok lax search environment none asked world shown refl

rebuild_publishes_example :
    let (r, after) = rebuild lax (shops environment) (index lax search environment) 7 world in
    (after.catalogue ≡ world.catalogue)
    × (((after.indexes ≡ world.indexes) × (is_ok r ≡ false))
        ⊎ (Published lax 7 (rows_of 7 world) world.indexes after.indexes
            × ((r ≡ ok (length (rows_of 7 world))) ⊎ (is_unacknowledged environment.reply ≡ true))))
rebuild_publishes_example = rebuild_publishes lax search environment 7 world
