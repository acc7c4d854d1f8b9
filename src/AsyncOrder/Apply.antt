-- ===== src/AsyncOrder/Apply.antt =====
-- Applying an accepted reservation to the tables (Apply of internal/repository/async_order.go):
-- the outcomes, and what a redelivery finds.
use local_life_go.Prelude.{
  ap, refl, same_text_refl, inr, inl, none, count, ◌<◌, false, ◌∷◌, arith, ◌≤◌, is_some, true, any,
  same_text, ◌≢◌, some, find, ◌≡◌, ◌⊎◌, Option, ℕ,
}
use local_life_go.AsyncOrder.Repository.{
  apply, apply_within, ordered, failed_result, created_result,
}
use local_life_go.Database.{
  update_rows, take_one, Statement, settle, is_in_stock, is_order_of, is_result_of, is_activity,
  Database, Replies,
}
use local_life_go.Model.{Reason, VoucherOrder, SeckillVoucher, SeckillResult, SeckillEvent}
use local_life_go.Effects.{is_unacknowledged, err, Result, ok}
use local_life_go.Database.Laws.{sell-IsConsistent, transaction-cases, IsConsistent, sell}
use local_life_go.AppError.{Kind, classified, Fault}
use local_life_go.Order.Place.{}

-- The row stands for this event.
abbrev pub Matches : SeckillEvent → SeckillResult → Type 0
Matches event row =
    (row.user_id ≡ event.user_id)
    × (same_text row.generation event.generation ≡ true)
    × (row.accepted_at ≡ event.accepted_at)

-- The order that an event leads to.
abbrev pub fulfilled : ℕ → SeckillEvent → Database → VoucherOrder
fulfilled stamp event db = record (ordered stamp event) { id = db.next_id }

abbrev pub InWindow : SeckillEvent → Option SeckillVoucher → Type 0
InWindow event none = ⊥
InWindow event (some row) =
    (row.async_state ≡ 2)
    × (same_text row.async_generation event.generation ≡ true)
    × (row.begin_time ≤ event.accepted_at)
    × (event.accepted_at < row.end_time)

-- The three ways in which an event is settled.
abbrev pub Known : SeckillEvent → SeckillResult → Database → Database → Type 0
Known event row db db' =
    (find (is_result_of event.voucher_id event.id) db.results ≡ some row)
    × Matches event row
    × (db' ≡ db)

abbrev pub Rejected : SeckillEvent → SeckillResult → Database → Database → Type 0
Rejected event row db db' =
    (row ≡ failed_result event row.reason)
    × (row.reason ≢ Reason.no_reason)
    × (db' ≡ record db { results = row ∷ db.results })

abbrev pub Created : ℕ → SeckillEvent → SeckillResult → Database → Database → Type 0
Created stamp event row db db' =
    (row ≡ created_result event db.next_id)
    × InWindow event (find (is_activity event.voucher_id) db.activities)
    × (any (is_order_of event.user_id event.voucher_id) db.orders ≡ false)
    × (count (is_in_stock event.voucher_id) db.activities ≡ 1)
    × (db' ≡ record (sell (fulfilled stamp event db) db) { results = row ∷ db.results })

abbrev pub Settled : ℕ → SeckillEvent → SeckillResult → Database → Database → Type 0
Settled stamp event row db db' =
    Known event row db db' ⊎ Rejected event row db db' ⊎ Created stamp event row db db'

module _ (replies : Replies) (stamp : ℕ) (event : SeckillEvent) (db : Database) where
  pub within_ok :
      (row : SeckillResult)
      → (apply_within replies stamp event db).0 ≡ ok row
      → Settled stamp event row db (apply_within replies stamp event db).1
        × (is_some (find (is_activity event.voucher_id) db.activities) ≡ true)
  unfolding apply_within
  within_ok row h = ground arith

-- A settled event has its result in the tables.
pub Settled-recorded :
    (stamp : ℕ) (event : SeckillEvent) (row : SeckillResult) (db db' : Database)
    → Settled stamp event row db db'
    → (find (is_result_of event.voucher_id event.id) db'.results ≡ some row) × Matches event row
Settled-recorded stamp event row db db' s =
    ground (arith, same_text_refl event.id, same_text_refl event.generation)

module _ (replies : Replies) (stamp : ℕ) (event : SeckillEvent) (db : Database) where
  abbrev pub run_apply : Result SeckillResult × Database
  run_apply = apply replies stamp event db

  -- A successful call has settled the event in one of three ways: it had its result already, and
  -- nothing changes; or it is rejected for a reason, and only the result is written; or one unit is
  -- sold to its user, within the window of the activity's generation, with the result beside it.
  pub apply_ok :
      (row : SeckillResult) → run_apply.0 ≡ ok row → Settled stamp event row db run_apply.1
  unfolding apply settle
  apply_ok row h = ground (arith, within_ok replies stamp event db row)

  -- A call that fails is a dependency failure, and has written nothing or, if the answer to its
  -- commit was lost, has settled the event as a successful call does.
  pub apply_error :
      (e : Fault)
      → run_apply.0 ≡ err e
      → (classified e ≡ some Kind.dependency)
        × ((run_apply.1 ≡ db)
            ⊎ ((is_unacknowledged (replies Statement.commit) ≡ true)
                × ((row : SeckillResult) × Settled stamp event row db run_apply.1)))
  unfolding apply
  apply_error e h = elim (transaction-cases replies (apply_within replies stamp event) db) [
    | inl (same, _) ↦ (ground arith, inl same)
    | inr (row, success, after, inl answered) ↦ cc (answered, h)
    | inr (row, success, after, inr lost) ↦
        (ground arith, inr (lost, (row, rw after (within_ok replies stamp event db row success).0)))
  ]

  Settled-IsConsistent :
      (capacity : ℕ → ℕ) (row : SeckillResult) (db' : Database)
      → Settled stamp event row db db'
      → IsConsistent capacity db
      → IsConsistent capacity db'
  Settled-IsConsistent capacity row db' (inl (_, _, same)) h = rw same h
  Settled-IsConsistent capacity row db' (inr (inl (_, _, after))) h =
      rw after (record { balanced = h.balanced; once = h.once; keys = h.keys; fresh = h.fresh })
  Settled-IsConsistent capacity row db' (inr (inr (_, _, first, stocked, after))) h =
      let sold = sell-IsConsistent capacity (fulfilled stamp event db) db h refl first stocked in
      rw after (record {
        balanced = sold.balanced;
        once = sold.once;
        keys = sold.keys;
        fresh = sold.fresh;
      })

  -- Whatever fails on the way, applying an event keeps stock and orders in balance.
  pub apply-IsConsistent :
      (capacity : ℕ → ℕ) → IsConsistent capacity db → IsConsistent capacity run_apply.1
  unfolding apply
  apply-IsConsistent capacity h =
      elim (transaction-cases replies (apply_within replies stamp event) db) [
        | inl (same, _) ↦ rw same h
        | inr (row, success, after, _) ↦ rw after (
            Settled-IsConsistent capacity row (apply_within replies stamp event db).1
              (within_ok replies stamp event db row success).0 h)
      ]

  Settled-activities :
      (row : SeckillResult) (db' : Database)
      → Settled stamp event row db db'
      → (db'.activities ≡ db.activities)
        ⊎ (db'.activities ≡ update_rows event.voucher_id take_one db.activities)
  Settled-activities row db' s = ground arith

  pub apply-activities :
      (run_apply.1.activities ≡ db.activities)
      ⊎ (run_apply.1.activities ≡ update_rows event.voucher_id take_one db.activities)
  unfolding apply
  apply-activities = elim (transaction-cases replies (apply_within replies stamp event) db) [
    | inl (same, _) ↦ inl (ap (λ (d : Database). d.activities) same)
    | inr (row, success, after, _) ↦ rw after (
        Settled-activities row (apply_within replies stamp event db).1
          (within_ok replies stamp event db row success).0)
  ]
