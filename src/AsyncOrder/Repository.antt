-- ===== src/AsyncOrder/Repository.antt =====
-- The repository of asynchronous orders (internal/repository/async_order.go) over the tables.
use local_life_go.Prelude.{
  same_text, ◌||◌, not, ltb, select, ◌&&◌, leb, sort_by, ◌==◌, find, map, if◌then◌else◌, take,
  count, some, List, none, Bool, Text, ℕ,
}
use local_life_go.Database.{
  is_result_of, is_order_of, update_rows, insert_order, decrement, insert_result, transaction,
  select_activity, order_error, Database, Replies, Statement,
}
use local_life_go.Model.{Outcome, Reason, SeckillResult, SeckillVoucher, SeckillEvent, VoucherOrder}
use local_life_go.Effects.{
  query, attempt, fail_if, pure, ◌>>◌, ◌>>=◌, raise, first_row, send, err, ok, map_error, M, Result,
}
use local_life_go.AppError.{Kind, Fault, is_record_not_found}

-- UPDATE … SET async_state = 1, async_generation, async_capacity
abbrev pub stage_row : Text → SeckillVoucher → SeckillVoucher
stage_row token row = record row {
  async_state = 1;
  async_generation = token;
  async_capacity = row.stock;
}

abbrev pub activate_row : SeckillVoucher → SeckillVoucher
activate_row row = record row { async_state = 2 }

abbrev pub update_activity : ℕ → (SeckillVoucher → SeckillVoucher) → M Database (Unit {0})
update_activity id change db =
    (ok tt, record db { activities = update_rows id change db.activities })

-- The result row that `Apply` prepares: it stands unless the order is created.
abbrev pub failed_result : SeckillEvent → Reason → SeckillResult
failed_result event reason = record {
  voucher_id = event.voucher_id;
  event_id = event.id;
  generation = event.generation;
  user_id = event.user_id;
  order_id = none;
  status = Outcome.failed;
  reason = reason;
  accepted_at = event.accepted_at;
}

abbrev pub created_result : SeckillEvent → ℕ → SeckillResult
created_result event order_id = record (failed_result event Reason.no_reason) {
  status = Outcome.created;
  order_id = some order_id;
}

-- The order that `Apply` inserts; GORM stamps it with its own clock.
abbrev pub ordered : ℕ → SeckillEvent → VoucherOrder
ordered stamp event = record {
  id = 0;
  user_id = event.user_id;
  voucher_id = event.voucher_id;
  status = 1;
  created_at = stamp;
  updated_at = stamp;
}

module _ (replies : Replies) where
  unfoldable pub lock_row : ℕ → M Database SeckillVoucher
  unfolding select_activity
  lock_row id = query (replies Statement.lock_activity) (select_activity id)

  unfoldable pub activity : ℕ → M Database SeckillVoucher
  unfolding lock_row order_error
  activity id = map_error order_error (lock_row id)

  abbrev count_orders_of : (VoucherOrder → Bool) → M Database ℕ
  count_orders_of p = query (replies Statement.count_orders) (λ db. ok (count p db.orders))

  -- The change of mode of an activity in state 0.
  stage_unused : ℕ → Text → ℕ → SeckillVoucher → M Database SeckillVoucher
  stage_unused clock token id row = do
    n ← count_orders_of (λ order. order.voucher_id == id)
    now ← query (replies Statement.read_clock) (λ _. ok clock)
    fail_if (not (n == 0) || leb row.stock 0 || not (ltb now row.end_time))
        (Fault.new Kind.conflict)
    query (replies Statement.read_random) (λ _. ok tt)
    send (replies Statement.update_activity) (update_activity id (stage_row token))
    pure (stage_row token row)

  unfoldable pub stage : ℕ → Text → ℕ → M Database SeckillVoucher
  unfolding lock_row order_error transaction stage_unused
  stage clock token id = map_error order_error (
      transaction replies (do
        row ← lock_row id
        if not (row.async_state == 0) then pure row else stage_unused clock token id row))

  unfoldable pub activate : ℕ → Text → M Database (Unit {0})
  unfolding lock_row order_error transaction
  activate id generation = map_error order_error (
      transaction replies (do
        row ← lock_row id
        fail_if
            (not (same_text row.async_generation generation)
              || (not (row.async_state == 1) && not (row.async_state == 2)))
            (Fault.new Kind.conflict)
        (if row.async_state == 2
            then pure tt
            else send (replies Statement.update_activity) (update_activity id activate_row))))

  unfoldable pub result : ℕ → ℕ → M Database SeckillResult
  unfolding order_error
  result user_id voucher_id = map_error order_error (
      query (replies Statement.find_result) (λ db.
        first_row
          (find (λ row. row.voucher_id == voucher_id && row.user_id == user_id) db.results)))

  abbrev save_result : SeckillResult → M Database SeckillResult
  unfolding insert_result
  save_result row = send (replies Statement.create_result) (insert_result row)

  -- The branch that takes a unit and inserts the order.
  fulfil : ℕ → SeckillEvent → M Database SeckillResult
  unfolding decrement insert_order save_result
  fulfil stamp event = do
    affected ← send (replies Statement.decrement_stock) (decrement event.voucher_id)
    fail_if (not (affected == 1)) Fault.other
    order ← send (replies Statement.create_order) (insert_order (ordered stamp event))
    save_result (created_result event order.id)

  -- What the user's row, and then the earlier orders and the stock, decide.
  apply_user : ℕ → SeckillEvent → SeckillVoucher → Result ℕ → M Database SeckillResult
  unfolding fulfil save_result
  apply_user stamp event locked (err e) =
      if is_record_not_found e
      then save_result (failed_result event Reason.user_not_found)
      else raise e
  apply_user stamp event locked (ok _) = do
    n ← count_orders_of (is_order_of event.user_id event.voucher_id)
    (if not (n == 0)
        then save_result (failed_result event Reason.already_purchased)
        else if locked.stock == 0
        then save_result (failed_result event Reason.sold_out)
        else fulfil stamp event)

  -- A new event of an activity.
  apply_new : ℕ → SeckillEvent → SeckillVoucher → M Database SeckillResult
  unfolding apply_user save_result
  apply_new stamp event locked = do
    fail_if
        (not (locked.async_state == 2) || not (same_text locked.async_generation event.generation))
        (Fault.wrap Kind.dependency Fault.other)
    (if ltb event.accepted_at locked.begin_time || not (ltb event.accepted_at locked.end_time)
        then save_result (failed_result event Reason.outside_activity_window)
        else do
          user ← attempt (
              query (replies Statement.find_user)
                (λ db. first_row (find (λ u. u == event.user_id) db.users)))
          apply_user stamp event locked user)

  -- An event with a result is answered from it, if it is the same event.
  apply_found : ℕ → SeckillEvent → SeckillVoucher → Result SeckillResult → M Database SeckillResult
  unfolding apply_new
  apply_found stamp event locked (ok row) = do
    fail_if
        (not (row.user_id == event.user_id)
          || not (same_text row.generation event.generation)
          || not (row.accepted_at == event.accepted_at))
        (Fault.wrap Kind.dependency Fault.other)
    pure row
  apply_found stamp event locked (err e) =
      if is_record_not_found e then apply_new stamp event locked else raise e

  unfoldable pub apply_within : ℕ → SeckillEvent → M Database SeckillResult
  unfolding lock_row apply_found
  apply_within stamp event = do
    locked ← lock_row event.voucher_id
    found ← attempt (
        query (replies Statement.find_result)
          (λ db. first_row (find (is_result_of event.voucher_id event.id) db.results)))
    apply_found stamp event locked found

  -- Every failure of the transaction is retryable: it is a dependency failure to the caller.
  unfoldable pub apply : ℕ → SeckillEvent → M Database SeckillResult
  unfolding transaction apply_within
  apply stamp event =
      map_error (Fault.wrap Kind.dependency) (transaction replies (apply_within stamp event))

  -- The rows stand in the order of the primary key.
  unfoldable pub active_ids : ℕ → ℕ → M Database (List ℕ)
  unfolding order_error
  active_ids after limit = map_error order_error (
      query (replies Statement.scan_activities) (λ db. ok (
        take limit (
          map (λ (row : SeckillVoucher). row.voucher_id)
            (sort_by (λ a b. leb a.voucher_id b.voucher_id)
              (select (λ row. row.async_state == 2 && ltb after row.voucher_id) db.activities))))))
