-- ===== src/Handler/Orders.antt =====
-- internal/handler/order.go and async_order.go.
use local_life_go.Prelude.{ℕ, not, bytes, ◌==◌, length}
use local_life_go.Effects.{M, pure, from_result, fail_if, ◌>>=◌, ◌>>◌}
use local_life_go.AsyncOrder.{SeckillView}
use local_life_go.Order.{OrderView}
use local_life_go.Paging.{Page}
use local_life_go.Handler.{Answer, Payload, Scope, Request}
use local_life_go.Handler.Requests.{
  max_uint, invalid, shop_query_number, parsed_query, page_number, community_id,
}

pub record OrderService (S : Type 0) : Type 0 where
  pub place : ℕ → ℕ → M S OrderView
  pub detail : ℕ → ℕ → M S OrderView
  pub list : ℕ → ℕ → ℕ → ℕ → M S (Page OrderView)

pub record AsyncOrderService (S : Type 0) : Type 0 where
  pub accept : ℕ → ℕ → M S SeckillView
  pub result : ℕ → ℕ → M S SeckillView

module _ {S : Type 0} (service : OrderService S) where
  unfoldable pub order_place : Scope → Request → M S Answer
  order_place scope r = do
    id ← community_id r
    fail_if (not (length r.body == 0)) invalid
    view ← service.place scope.user_id id
    pure (Answer.success_of (Payload.order view))

  unfoldable pub order_detail : Scope → Request → M S Answer
  order_detail scope r = do
    id ← community_id r
    view ← service.detail scope.user_id id
    pure (Answer.success_of (Payload.order view))

  unfoldable pub order_list : Scope → Request → M S Answer
  unfolding page_number
  order_list scope r = do
    query ← parsed_query r
    voucher ← from_result (shop_query_number query (bytes "voucher_id") 0 max_uint)
    (page, size) ← page_number query
    items ← service.list scope.user_id voucher page size
    pure (Answer.success_of (Payload.orders items))

module _ {S : Type 0} (service : AsyncOrderService S) where
  unfoldable pub seckill_accept : Scope → Request → M S Answer
  seckill_accept scope r = do
    id ← community_id r
    fail_if (not (length r.body == 0)) invalid
    view ← service.accept scope.user_id id
    pure (Answer.accepted (Payload.seckill view))

  unfoldable pub seckill_result : Scope → Request → M S Answer
  seckill_result scope r = do
    id ← community_id r
    view ← service.result scope.user_id id
    pure (Answer.success_of (Payload.seckill view))
