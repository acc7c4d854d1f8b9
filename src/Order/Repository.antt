-- ===== src/Order/Repository.antt =====
-- The order repository (internal/repository/order.go): the service's transaction port and queries
-- over the tables.
use local_life_go.Prelude.{
  ℕ, Bool, true, false, ◌&&◌, ◌||◌, List, ◌==◌, select, take, drop, find, if◌then◌else◌, leb,
  sort_by,
}
use local_life_go.AppError.{is_record_not_found}
use local_life_go.Model.{SeckillVoucher, VoucherOrder}
use local_life_go.Effects.{query, first_row, Result, ok, err, M, map_error, send, map_result}
use local_life_go.Database.{
  Database, Replies, Statement, is_order_of, select_activity, decrement, insert_order, transaction,
  order_error,
}
use local_life_go.Order.{OrderTransaction, Orders}

abbrev select_order : ℕ → ℕ → Database → Result VoucherOrder
select_order user_id voucher_id db = first_row (find (is_order_of user_id voucher_id) db.orders)

abbrev select_order_by_id : ℕ → ℕ → Database → Result VoucherOrder
select_order_by_id user_id id db =
    first_row (find (λ row. row.user_id == user_id && row.id == id) db.orders)

-- The rows of a user, of one voucher unless `voucher_id` is zero, the newest first.
abbrev pub orders_of : ℕ → ℕ → Database → List VoucherOrder
orders_of user_id voucher_id db =
    sort_by (λ a b. leb b.id a.id)
      (select (λ row. row.user_id == user_id && (voucher_id == 0 || row.voucher_id == voucher_id))
        db.orders)

-- A missing row is no error here.
has_order_reply : Result VoucherOrder → Result Bool
has_order_reply (ok _) = ok true
has_order_reply (err e) = if is_record_not_found e then ok false else err (order_error e)

module _ (replies : Replies) where
  unfoldable pub lock_activity : ℕ → M Database SeckillVoucher
  unfolding order_error select_activity
  lock_activity id =
      map_error order_error (query (replies Statement.lock_activity) (select_activity id))

  -- `SELECT UTC_TIMESTAMP(3)`: the database's clock is a parameter.
  unfoldable pub now : ℕ → M Database ℕ
  unfolding order_error
  now clock = map_error order_error (query (replies Statement.read_clock) (λ _. ok clock))

  unfoldable pub has_order : ℕ → ℕ → M Database Bool
  unfolding order_error has_order_reply
  has_order user_id voucher_id db =
      let (reply, db') =
        query (replies Statement.find_order) (select_order user_id voucher_id) db in
      (has_order_reply reply, db')

  unfoldable pub decrement_stock : ℕ → M Database Bool
  unfolding order_error decrement
  decrement_stock id db =
      let (reply, db') =
        map_error order_error (send (replies Statement.decrement_stock) (decrement id)) db in
      (map_result (λ affected. affected == 1) reply, db')

  unfoldable pub create_order : VoucherOrder → M Database VoucherOrder
  unfolding order_error insert_order
  create_order row =
      map_error order_error (send (replies Statement.create_order) (insert_order row))

  -- The transaction port.
  unfoldable pub order_transaction : ℕ → OrderTransaction Database
  unfolding lock_activity now has_order decrement_stock create_order
  order_transaction clock = record {
    lock_activity = lock_activity;
    now = now clock;
    has_order = has_order;
    decrement_stock = decrement_stock;
    create_order = create_order;
  }

  unfoldable pub within_transaction :
      {A : Type 0} → ℕ → (OrderTransaction Database → M Database A) → M Database A
  unfolding transaction order_error order_transaction
  within_transaction clock body =
      map_error order_error (transaction replies (body (order_transaction clock)))

  unfoldable pub by_id : ℕ → ℕ → M Database VoucherOrder
  unfolding order_error
  by_id user_id id =
      map_error order_error (query (replies Statement.find_order) (select_order_by_id user_id id))

  unfoldable pub list : ℕ → ℕ → ℕ → ℕ → M Database (List VoucherOrder)
  unfolding order_error
  list user_id voucher_id offset limit = map_error order_error (
      query (replies Statement.find_order)
        (λ db. ok (take limit (drop offset (orders_of user_id voucher_id db)))))

  unfoldable pub orders_repository : ℕ → Orders Database
  unfolding within_transaction by_id list
  orders_repository clock = record {
    within_transaction = within_transaction clock;
    by_id = by_id;
    list = list;
  }
