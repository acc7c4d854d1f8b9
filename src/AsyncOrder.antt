-- ===== src/AsyncOrder.antt =====
-- The asynchronous order service (internal/service/async_order.go), over the interfaces through
-- which it reaches the tables and the queue.
pub mod Repository
pub mod Apply
pub mod Activation
pub mod History
pub mod World
pub mod Retained
pub mod Worker
pub mod Retry
pub mod Redelivery
use local_life_go.Prelude.{
  is_some, same_text, if◌then◌else◌, ◌==◌, ℕ, Bool, true, false, ◌&&◌, ◌||◌, not, Option, none,
  some, List, Text, bytes, ℤ, pos,
}
use local_life_go.AppError.{classified, describe, Kind, Fault}
use local_life_go.Model.{SeckillVoucher, SeckillSeed, SeckillEvent, SeckillResult, Outcome, Reason}
use local_life_go.Effects.{
  from_result, Result, ok, err, M, pure, raise, fail_if, attempt, ◌>>=◌, ◌>>◌,
}

pub record AsyncOrders (S : Type 0) : Type 0 where
  pub activity : ℕ → M S SeckillVoucher
  pub stage : ℕ → M S SeckillVoucher
  pub activate : ℕ → Text → M S (Unit {0})
  pub result : ℕ → ℕ → M S SeckillResult
  pub apply : SeckillEvent → M S SeckillResult
  pub active_ids : ℕ → ℕ → M S (List ℕ)

-- `claim` and `read` hand the decoded deliveries over even when they report an error.
pub record SeckillQueue (S : Type 0) : Type 0 where
  pub prepare : SeckillSeed → M S (Unit {0})
  pub check : SeckillSeed → Bool → M S (Unit {0})
  pub reserve_for_generation : ℕ → ℕ → Text → M S SeckillEvent
  pub receipt : ℕ → ℕ → M S SeckillEvent
  pub read : ℕ → S → List SeckillEvent × Option Fault × S
  pub claim : ℕ → Text → S → List SeckillEvent × Text × Option Fault × S
  pub compensate : SeckillEvent → M S (Unit {0})
  pub ack : SeckillEvent → M S (Unit {0})

pub data ViewStatus : Type 0 where
  pending : ViewStatus
  final : Outcome → ViewStatus

pub record SeckillView : Type 0 where
  pub voucher_id : ℕ
  pub ticket : Text
  pub status : ViewStatus
  pub order_id : Option ℕ
  pub reason : Reason

abbrev pub pending_view : ℕ → SeckillEvent → SeckillView
pending_view voucher_id event = record {
  voucher_id = voucher_id;
  ticket = event.id;
  status = pending;
  order_id = none;
  reason = Reason.no_reason;
}

abbrev pub final_view : ℕ → SeckillResult → SeckillView
final_view voucher_id row = record {
  voucher_id = voucher_id;
  ticket = row.event_id;
  status = final row.status;
  order_id = row.order_id;
  reason = row.reason;
}

abbrev pub seed_of : ℕ → SeckillVoucher → SeckillSeed
seed_of id row = record {
  voucher_id = id;
  generation = row.async_generation;
  stock = pos row.async_capacity;
  begin_time = pos row.begin_time;
  end_time = pos row.end_time;
}

abbrev pub is_failed : Outcome → Bool
is_failed Outcome.failed = true
is_failed Outcome.created = false

-- `errors.As(err, &classified)` with the code "conflict": what may follow a crash before the SQL
-- activation and is passed over.
unfoldable pub is_conflict : Fault → Bool
unfolding describe
is_conflict e = is_some (classified e) && same_text (describe e).code (bytes "conflict")

pass_conflict : Result (Unit {0}) → Result (Unit {0})
unfolding is_conflict
pass_conflict (ok _) = ok tt
pass_conflict (err e) = if is_conflict e then ok tt else err e

module _ {S : Type 0} (orders : AsyncOrders S) (queue : SeckillQueue S) where
  unfoldable pub enable : ℕ → M S (Unit {0})
  unfolding pass_conflict
  enable id = do
    fail_if (id == 0) (Fault.new Kind.validation)
    row ← orders.stage id
    let seed = seed_of id row
    (if row.async_state == 2 then queue.check seed false else do
      prepared ← attempt (queue.prepare seed)
      from_result (pass_conflict prepared)
      queue.check seed true
      orders.activate id row.async_generation)

  unfoldable pub accept : ℕ → ℕ → M S SeckillView
  accept user_id voucher_id = do
    fail_if (user_id == 0) (Fault.new Kind.unauthorized)
    fail_if (voucher_id == 0) (Fault.new Kind.validation)
    row ← orders.activity voucher_id
    fail_if (not (row.async_state == 2)) (Fault.new Kind.conflict)
    event ← queue.reserve_for_generation voucher_id user_id row.async_generation
    pure (pending_view voucher_id event)

  -- What `Result` does when the tables have no result yet.
  unfoldable pub pending_result : ℕ → ℕ → M S SeckillView
  pending_result user_id voucher_id = do
    row ← orders.activity voucher_id
    fail_if (not (row.async_state == 2)) (Fault.new Kind.conflict)
    event ← queue.receipt voucher_id user_id
    fail_if (not (same_text event.generation row.async_generation)) (Fault.new Kind.dependency)
    pure (pending_view voucher_id event)

  unfoldable pub after_lookup : ℕ → ℕ → Result SeckillResult → M S SeckillView
  unfolding pending_result describe
  after_lookup user_id voucher_id (ok row) = pure (final_view voucher_id row)
  after_lookup user_id voucher_id (err e) =
      if same_text (describe e).code (bytes "not_found")
      then pending_result user_id voucher_id
      else raise e

  unfoldable pub result : ℕ → ℕ → M S SeckillView
  unfolding after_lookup
  result user_id voucher_id = do
    fail_if (user_id == 0) (Fault.new Kind.unauthorized)
    fail_if (voucher_id == 0) (Fault.new Kind.validation)
    found ← attempt (orders.result user_id voucher_id)
    after_lookup user_id voucher_id found

  unfoldable pub process : SeckillEvent → M S (Unit {0})
  process event = do
    row ← orders.apply event
    (if is_failed row.status then queue.compensate event else pure tt)
    queue.ack event
