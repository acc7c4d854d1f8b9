-- ===== src/Geo.antt =====
-- Shops nearby (internal/service/geo.go, internal/repository/geo.go, internal/cache/geo.go and
-- lua/geo_publish.lua beside it). A floating-point number is its 64 bits; the comparisons of the
-- processor and the search of Redis are arguments.
pub mod Laws
pub mod Rebuild
use local_life_go.Prelude.{
  leb, map, any, pos, take, sort_by, is_some, all, same_text, ◌-◌, ◌*◌, ltb, select, drop, ◌||◌,
  ◌&&◌, length, parse_uint, some, ◌==◌, not, ◌∷◌, [], negsuc, false, none, Option, List,
  format_uint, Bool, ℤ, Text, if◌then◌else◌, ℕ, zero, suc, ◌+◌,
}
use local_life_go.Shop.{Shop, ShopView, Catalogue, shop_view}
use local_life_go.Effects.{
  send, from_result, check_context, fail_if, ◌>>=◌, query, err, pure, map_error, ok, ◌>>◌, Result,
  Reply, M,
}
use local_life_go.AppError.{Kind, Fault}

-- `float_of n` is the number n / 10^8.
pub record Floats : Type 0 where
  pub is_nan : ℕ → Bool
  pub is_inf : ℕ → Bool
  pub le : ℕ → ℕ → Bool
  pub float_of : ℤ → ℕ

-- internal/model/geo.go
pub record GeoHit : Type 0 where
  pub id : ℕ
  pub distance : ℕ

pub record GeoQuery : Type 0 where
  pub type_id : ℕ
  pub longitude : ℕ
  pub latitude : ℕ
  pub radius : ℕ
  pub limit : ℕ

pub record NearbyShop : Type 0 where
  pub shop : ShopView
  pub distance : ℕ

-- A member of the sorted set with its coordinates, and a location that a search finds.
pub record Member : Type 0 where
  pub name : Text
  pub longitude : ℕ
  pub latitude : ℕ

pub record Location : Type 0 where
  pub name : Text
  pub distance : ℕ

-- The two keys of a category; an empty sorted set is no key.
pub record GeoKeys : Type 0 where
  pub index : Option (List Member)
  pub ready : Option Text

abbrev pub Indexes : Type 0
Indexes = ℕ → GeoKeys

-- GEOSEARCH … ASC with its count.
abbrev pub Search : Type 0
Search = List Member → GeoQuery → List Location

abbrev pub degree : ℕ
degree = 100000000

module _ (float : Floats) where
  -- geoRange and validGeoCoordinate
  abbrev pub in_range : ℕ → ℤ → ℤ → Bool
  in_range v low high =
      not (float.is_nan v)
      && not (float.is_inf v)
      && float.le (float.float_of low) v
      && float.le v (float.float_of high)

  abbrev pub is_longitude : ℕ → Bool
  is_longitude v = in_range v (negsuc (180 * degree - 1)) (pos (180 * degree))

  abbrev pub is_latitude : ℕ → Bool
  is_latitude v = in_range v (negsuc (8505112878 - 1)) (pos 8505112878)

  -- internal/cache/geo.go: Nearby
  good_hit : Location → Option ℕ → Result GeoHit
  good_hit location none = err Fault.other
  good_hit location (some id) =
      if id == 0
        || float.is_nan location.distance
        || float.is_inf location.distance
        || not (float.le (float.float_of (pos 0)) location.distance)
      then err Fault.other
      else ok (record { id = id; distance = location.distance })

  abbrev and_hits : Result GeoHit → Result (List GeoHit) → Result (List GeoHit)
  and_hits (ok hit) (ok hits) = ok (hit ∷ hits)
  and_hits (ok hit) (err e) = err e
  and_hits (err e) hits = err e

  unfoldable pub hits_of : List Location → Result (List GeoHit)
  unfolding good_hit
  hits_of [] = ok []
  hits_of (location ∷ rest) = and_hits (good_hit location (parse_uint location.name)) (hits_of rest)

  -- Whether the marker and the index fit together.
  abbrev pub is_consistent : Option ℕ → Option (List Member) → Bool
  is_consistent none index = false
  is_consistent (some n) index =
      not (ltb 0 n && not (is_some index)) && not (n == 0 && is_some index)

  abbrev or_empty : Option (List Member) → List Member
  or_empty none = []
  or_empty (some members) = members

  read_index : Search → GeoQuery → GeoKeys → Option Text → Result (List GeoHit)
  unfolding hits_of
  read_index search q keys none = err Fault.other
  read_index search q keys (some marker) =
      if is_consistent (parse_uint marker) keys.index
      then hits_of (search (or_empty keys.index) q)
      else err Fault.other

  -- One transaction of Redis: GET, EXISTS and GEOSEARCH. A marker that is not there is an error.
  unfoldable pub nearby_index : Reply → Search → GeoQuery → M Indexes (List GeoHit)
  unfolding read_index
  nearby_index reply search q =
      query reply (λ indexes. read_index search q (indexes q.type_id) (indexes q.type_id).ready)

  -- internal/cache/geo.go: Replace
  abbrev member_of : Shop → Member
  member_of row = record {
    name = format_uint row.id;
    longitude = row.longitude;
    latitude = row.latitude;
  }

  -- GEOADD: a member that is there is replaced.
  abbrev pub add_member : Member → List Member → List Member
  add_member m members = m ∷ select (λ other. not (same_text other.name m.name)) members

  unfoldable pub add_shops : List Shop → List Member → List Member
  add_shops [] members = members
  add_shops (row ∷ rows) members = add_shops rows (add_member (member_of row) members)

  -- The batches of 500 go to a temporary key; a round takes one of them, so as many rounds as rows are
  -- enough. `expired` says that the key was gone when the script ran.
  build : ℕ → (ℕ → Reply) → List Shop → List Member → Result (List Member)
  unfolding add_shops
  build zero replies rows members = ok members
  build (suc rounds) replies rows members =
      let more = build rounds replies (drop 500 rows) (add_shops (take 500 rows) members) in
      if length rows == 0 then ok members else elim (replies rounds) [
        | Reply.done ↦ more
        | Reply.failed e ↦ err e
        | Reply.unacknowledged e ↦ err e
      ]

  abbrev set_keys : ℕ → GeoKeys → Indexes → Indexes
  set_keys type_id keys indexes other = if other == type_id then keys else indexes other

  -- lua/geo_publish.lua
  publish : ℕ → ℕ → List Member → M Indexes (Unit {0})
  publish type_id n temporary indexes =
      if n == 0
      then (ok tt, set_keys type_id (record { index = none; ready = some (format_uint n) }) indexes)
      else if not (length temporary == n)
      then (err Fault.other, indexes)
      else (
        ok tt,
        set_keys type_id (record { index = some temporary; ready = some (format_uint n) }) indexes,
      )

  abbrev pub is_valid_row : ℕ → Shop → Bool
  is_valid_row type_id row =
      not (row.id == 0)
      && (row.type_id == type_id)
      && is_longitude row.longitude
      && is_latitude row.latitude

  unfoldable pub replace : (ℕ → Reply) → Bool → Reply → ℕ → List Shop → M Indexes (Unit {0})
  unfolding build publish
  replace replies expired reply type_id rows = do
    fail_if (type_id == 0) Fault.other
    fail_if (not (all (is_valid_row type_id) rows)) Fault.other
    built ← from_result (build (length rows) replies rows [])
    send reply (publish type_id (length rows) (if expired then [] else built))

-- internal/repository/geo.go
unfoldable pub by_ids : Reply → List ℕ → M Catalogue (List Shop)
by_ids reply [] = pure []
by_ids reply (id ∷ ids) = map_error (Fault.wrap Kind.dependency) (
    query reply
      (λ db. ok (select (λ (row : Shop). any (λ other. row.id == other) (id ∷ ids)) db.shops)))

unfoldable pub for_type : Reply → ℕ → M Catalogue (List Shop)
for_type reply type_id = map_error (Fault.wrap Kind.dependency) (
    query reply (λ db. ok (
      sort_by (λ (a b : Shop). leb a.id b.id)
        (select (λ (row : Shop). row.type_id == type_id) db.shops))))

pub record GeoShops (S : Type 0) : Type 0 where
  pub by_ids : List ℕ → M S (List Shop)
  pub for_type : ℕ → M S (List Shop)

pub record GeoIndex (S : Type 0) : Type 0 where
  pub nearby : GeoQuery → M S (List GeoHit)
  pub replace : ℕ → List Shop → M S (Unit {0})

-- The map of the rows by their numbers: a later row takes the place of an earlier one.
abbrev pub row_of : ℕ → List Shop → Option Shop
row_of id [] = none
row_of id (row ∷ rows) = elim (row_of id rows) [
  | some later ↦ some later
  | none ↦ if row.id == id then some row else none
]

abbrev pub shown : ℕ → GeoHit → Option Shop → List NearbyShop → List NearbyShop
shown type_id hit none rest = rest
shown type_id hit (some row) rest =
    if row.type_id == type_id
    then record { shop = shop_view row; distance = hit.distance } ∷ rest
    else rest

unfoldable pub nearby_items : ℕ → List Shop → List GeoHit → List NearbyShop
nearby_items type_id rows [] = []
nearby_items type_id rows (hit ∷ hits) =
    shown type_id hit (row_of hit.id rows) (nearby_items type_id rows hits)

unfoldable pub bad_query : Floats → GeoQuery → Bool
bad_query float q =
    q.type_id == 0
    || not (is_longitude float q.longitude)
    || not (is_latitude float q.latitude)
    || not (in_range float q.radius (pos degree) (pos (50000 * degree)))
    || ltb q.limit 1
    || ltb 50 q.limit

module _ (float : Floats) {S : Type 0} (shops : GeoShops S) (index : GeoIndex S) where
  unfoldable pub after_hits : GeoQuery → List GeoHit → M S (List NearbyShop)
  unfolding nearby_items
  after_hits q [] = pure []
  after_hits q (hit ∷ hits) = do
    rows ← shops.by_ids (map (λ (h : GeoHit). h.id) (hit ∷ hits))
    pure (nearby_items q.type_id rows (hit ∷ hits))

  unfoldable pub nearby : Option Fault → GeoQuery → M S (List NearbyShop)
  unfolding after_hits
  nearby ctx q = do
    fail_if (bad_query float q) (Fault.new Kind.validation)
    check_context ctx
    hits ← map_error (Fault.wrap Kind.dependency) (index.nearby q)
    after_hits q hits

  unfoldable pub rebuild : ℕ → M S ℕ
  rebuild type_id = do
    fail_if (type_id == 0) (Fault.new Kind.validation)
    rows ← shops.for_type type_id
    map_error (Fault.wrap Kind.dependency) (index.replace type_id rows)
    pure (length rows)

-- The tables and the indexes.
pub record World : Type 0 where
  pub catalogue : Catalogue
  pub indexes : Indexes

abbrev pub on_catalogue : {A : Type 0} → M Catalogue A → M World A
on_catalogue m w =
    let (r, after) = m w.catalogue in (r, record { catalogue = after; indexes = w.indexes })

abbrev pub on_indexes : {A : Type 0} → M Indexes A → M World A
on_indexes m w =
    let (r, after) = m w.indexes in (r, record { catalogue = w.catalogue; indexes = after })

-- What the environment decides in one call: the replies of MySQL and of Redis, those to the batches,
-- and whether the temporary key is gone when it is published.
pub record Environment : Type 0 where
  pub selected : Reply
  pub reply : Reply
  pub batches : ℕ → Reply
  pub expired : Bool

unfoldable pub shops : Environment → GeoShops World
shops env = record {
  by_ids = λ ids. on_catalogue (by_ids env.selected ids);
  for_type = λ type_id. on_catalogue (for_type env.selected type_id);
}

unfoldable pub index : Floats → Search → Environment → GeoIndex World
index float search env = record {
  nearby = λ q. on_indexes (nearby_index float env.reply search q);
  replace =
      λ type_id rows. on_indexes (replace float env.batches env.expired env.reply type_id rows);
}
