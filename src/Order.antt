-- ===== src/Order.antt =====
-- The synchronous order service (internal/service/order.go), over the interface through which it
-- reaches the store.
pub mod Repository
pub mod Place
use local_life_go.Prelude.{
  ℕ, ◌+◌, ◌-◌, ◌*◌, Bool, true, false, ◌&&◌, ◌||◌, not, Option, List, map, ltb, leb, ◌==◌, length,
  take, if◌then◌else◌,
}
use local_life_go.AppError.{Kind, Fault}
use local_life_go.Model.{SeckillVoucher, VoucherOrder}
use local_life_go.Paging.{Page, page_of, bad_page}
use local_life_go.Effects.{Result, ok, err, M, pure, fail_if, check_context, ◌>>=◌, ◌>>◌}

-- The persistence port used only inside a database transaction.
pub record OrderTransaction (S : Type 0) : Type 0 where
  pub lock_activity : ℕ → M S SeckillVoucher
  pub now : M S ℕ
  pub has_order : ℕ → ℕ → M S Bool
  pub decrement_stock : ℕ → M S Bool
  pub create_order : VoucherOrder → M S VoucherOrder

pub record Orders (S : Type 0) : Type 0 where
  pub within_transaction : (OrderTransaction S → M S VoucherOrder) → M S VoucherOrder
  pub by_id : ℕ → ℕ → M S VoucherOrder
  pub list : ℕ → ℕ → ℕ → ℕ → M S (List VoucherOrder)

pub record OrderView : Type 0 where
  pub id : ℕ
  pub user_id : ℕ
  pub voucher_id : ℕ
  pub status : ℕ
  pub created_at : ℕ

unfoldable pub order_view : VoucherOrder → OrderView
order_view row = record {
  id = row.id;
  user_id = row.user_id;
  voucher_id = row.voucher_id;
  status = row.status;
  created_at = row.created_at;
}

module _ {S : Type 0} where
  -- The function that `Place` runs within the transaction.
  unfoldable pub place_within : ℕ → ℕ → OrderTransaction S → M S VoucherOrder
  place_within user_id voucher_id tx = do
    activity ← tx.lock_activity voucher_id
    fail_if (not (activity.async_state == 0)) (Fault.new Kind.conflict)
    now ← tx.now
    fail_if (ltb now activity.begin_time) (Fault.new Kind.activity_not_started)
    fail_if (not (ltb now activity.end_time)) (Fault.new Kind.activity_ended)
    exists ← tx.has_order user_id voucher_id
    fail_if exists (Fault.new Kind.already_purchased)
    changed ← tx.decrement_stock voucher_id
    fail_if (not changed) (Fault.new Kind.sold_out)
    tx.create_order (record {
      id = 0;
      user_id = user_id;
      voucher_id = voucher_id;
      status = 1;
      created_at = now;
      updated_at = now;
    })

  unfoldable pub place : Orders S → Option Fault → ℕ → ℕ → M S OrderView
  unfolding place_within
  place orders ctx user_id voucher_id = do
    fail_if (user_id == 0) (Fault.new Kind.unauthorized)
    fail_if (voucher_id == 0) (Fault.new Kind.validation)
    check_context ctx
    created ← orders.within_transaction (place_within user_id voucher_id)
    pure (order_view created)

  unfoldable pub detail : Orders S → ℕ → ℕ → M S OrderView
  detail orders user_id id = do
    fail_if (user_id == 0) (Fault.new Kind.unauthorized)
    fail_if (id == 0) (Fault.new Kind.validation)
    row ← orders.by_id user_id id
    pure (order_view row)

  unfoldable pub list : Orders S → ℕ → ℕ → ℕ → ℕ → M S (Page OrderView)
  unfolding page_of
  list orders user_id voucher_id page size = do
    fail_if (user_id == 0) (Fault.new Kind.unauthorized)
    fail_if (bad_page page size) (Fault.new Kind.validation)
    rows ← orders.list user_id voucher_id ((page - 1) * size) (size + 1)
    pure (page_of order_view page size rows)
