-- ===== src/Handler/Shops.antt =====
-- internal/handler/shop.go, geo.go and voucher.go.
use local_life_go.Prelude.{ℕ, ◌*◌, true, false, Option, List, Text, bytes, ◌==◌, pos, negsuc, ◌-◌}
use local_life_go.Effects.{M, pure, from_result, fail_if, ◌>>=◌, ◌>>◌}
use local_life_go.Geo.{Floats, GeoQuery, NearbyShop, degree}
use local_life_go.Paging.{Page}
use local_life_go.Shop.{ShopTypeView, ShopView}
use local_life_go.Voucher.{VoucherView}
use local_life_go.Handler.{Answer, Payload, Scope, Request}
use local_life_go.Handler.Requests.{
  max_uint, invalid, shop_query_number, geo_number, values_of, parsed_query, page_number,
  community_id,
}

pub record ShopService (S : Type 0) : Type 0 where
  pub types : M S (List ShopTypeView)
  pub list : ℕ → ℕ → ℕ → M S (Page ShopView)
  pub detail : ℕ → M S ShopView

pub record GeoService (S : Type 0) : Type 0 where
  pub nearby : GeoQuery → M S (List NearbyShop)

pub record VoucherService (S : Type 0) : Type 0 where
  pub list : ℕ → ℕ → ℕ → M S (Page VoucherView)
  pub detail : ℕ → M S VoucherView

-- Every number of a list handler is read before the first error among them is looked at; all of
-- these errors are the same.
module _ {S : Type 0} (service : ShopService S) where
  unfoldable pub shop_types : Scope → Request → M S Answer
  shop_types scope r = do items ← service.types; pure (Answer.success_of (Payload.shop_types items))

  unfoldable pub shop_list : Scope → Request → M S Answer
  unfolding page_number
  shop_list scope r = do
    query ← parsed_query r
    type_id ← from_result (shop_query_number query (bytes "type_id") 0 max_uint)
    (page, size) ← page_number query
    items ← service.list type_id page size
    pure (Answer.success_of (Payload.shops items))

  unfoldable pub shop_detail : Scope → Request → M S Answer
  shop_detail scope r = do
    id ← community_id r
    item ← service.detail id
    pure (Answer.success_of (Payload.shop item))

module _ {S : Type 0} (service : VoucherService S) where
  unfoldable pub voucher_list : Scope → Request → M S Answer
  unfolding page_number
  voucher_list scope r = do
    query ← parsed_query r
    shop_id ← from_result (shop_query_number query (bytes "shop_id") 0 max_uint)
    (page, size) ← page_number query
    items ← service.list shop_id page size
    pure (Answer.success_of (Payload.vouchers items))

  unfoldable pub voucher_detail : Scope → Request → M S Answer
  voucher_detail scope r = do
    id ← community_id r
    item ← service.detail id
    pure (Answer.success_of (Payload.voucher item))

module _ {S : Type 0} (service : GeoService S) (float : Floats) (parse : Text → Option ℕ) where
  unfoldable pub geo_nearby : Scope → Request → M S Answer
  unfolding geo_number
  geo_nearby scope r = do
    query ← parsed_query r
    type_id ← from_result (shop_query_number query (bytes "type_id") 0 max_uint)
    longitude ← from_result (
        geo_number float parse 0 true (negsuc (180 * degree - 1)) (pos (180 * degree))
          (values_of (bytes "longitude") query))
    latitude ← from_result (
        geo_number float parse 0 true (negsuc (8505112878 - 1)) (pos 8505112878)
          (values_of (bytes "latitude") query))
    radius ← from_result (
        geo_number float parse (float.float_of (pos (5000 * degree))) false (pos degree)
          (pos (50000 * degree)) (values_of (bytes "radius_m") query))
    limit ← from_result (shop_query_number query (bytes "limit") 10 50)
    fail_if (type_id == 0) invalid
    items ← service.nearby (record {
      type_id = type_id;
      longitude = longitude;
      latitude = latitude;
      radius = radius;
      limit = limit;
    })
    pure (Answer.success_of (Payload.nearby_shops items))
