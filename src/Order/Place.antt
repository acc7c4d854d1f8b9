-- ===== src/Order/Place.antt =====
-- Placing an order, service and repository together (Order.Place of internal/service/order.go).
use local_life_go.Prelude.{
  ap, refl, any-eq-is_some, any-eq-is_some, ◌&&◌, ◌≢◌, ◌==◌, none, true, inr, inl, ◌⊎◌, Option, ℕ,
  ◌≤◌, ◌<◌, ◌≡◌, false, some, arith, find, any, count,
}
use local_life_go.Model.{SeckillVoucher, VoucherOrder}
use local_life_go.Effects.{is_unacknowledged, Result-cases, err, Result, ok}
use local_life_go.Database.{
  quiet, Statement, Database, Replies, is_activity, is_order_of, is_in_stock, take_one, update_rows,
}
use local_life_go.Order.{order_view, OrderView, place, place_within}
use local_life_go.Order.Repository.{orders_repository, order_transaction}
use local_life_go.Database.Laws.{sell-IsConsistent, IsConsistent, sell}
use local_life_go.AppError.{classified, Kind, Fault}

-- The order that a successful call inserts.
abbrev pub placed : ℕ → ℕ → ℕ → Database → VoucherOrder
placed clock user_id voucher_id db = record {
  id = db.next_id;
  user_id = user_id;
  voucher_id = voucher_id;
  status = 1;
  created_at = clock;
  updated_at = clock;
}

-- Why an order may be placed: the row found for the voucher admits it.
abbrev pub Admits : ℕ → Option SeckillVoucher → Type 0
Admits clock none = ⊥
Admits clock (some row) = (row.async_state ≡ 0) × (row.begin_time ≤ clock) × (clock < row.end_time)

pub record CanPlace (clock user_id voucher_id : ℕ) (db : Database) : Type 0 where
  pub admitted : Admits clock (find (is_activity voucher_id) db.activities)
  pub first : any (is_order_of user_id voucher_id) db.orders ≡ false
  pub stocked : count (is_in_stock voucher_id) db.activities ≡ 1

module _ (replies : Replies) (clock : ℕ) (ctx : Option Fault) (user_id voucher_id : ℕ)
    (db : Database) where
  abbrev pub run_place : Result OrderView × Database
  run_place = place (orders_repository replies clock) ctx user_id voucher_id db

  -- A call that succeeds was of a user, for an activity that is synchronous, within its window, in
  -- stock and not yet bought by this user; it has sold exactly one unit, and its view is the order.
  pub place_ok :
      (view : OrderView)
      → run_place.0 ≡ ok view
      → (run_place.1 ≡ sell (placed clock user_id voucher_id db) db)
        × (view ≡ order_view (placed clock user_id voucher_id db))
        × (0 < user_id)
        × CanPlace clock user_id voucher_id db
  unfolding place orders_repository place_within order_transaction
  place_ok view h = ground arith

  -- A call that fails has changed nothing, unless the answer to its commit was lost; then it has
  -- sold the unit as a call that succeeds does.
  pub place_error :
      (e : Fault)
      → run_place.0 ≡ err e
      → (run_place.1 ≡ db)
        ⊎ ((is_unacknowledged (replies Statement.commit) ≡ true)
            × (run_place.1 ≡ sell (placed clock user_id voucher_id db) db)
            × CanPlace clock user_id voucher_id db)
  unfolding place orders_repository place_within order_transaction
  place_error e h = ground arith

  sold-IsConsistent :
      (capacity : ℕ → ℕ)
      → IsConsistent capacity db
      → CanPlace clock user_id voucher_id db
      → IsConsistent capacity (sell (placed clock user_id voucher_id db) db)
  sold-IsConsistent capacity h can =
      sell-IsConsistent capacity (placed clock user_id voucher_id db) db h refl can.first
        can.stocked

  -- Whatever fails on the way, a call of `Place` keeps the tables consistent: stock and orders of a
  -- voucher add up to its capacity, and no user has two orders for one voucher.
  pub place-IsConsistent :
      (capacity : ℕ → ℕ) → IsConsistent capacity db → IsConsistent capacity run_place.1
  place-IsConsistent capacity h = elim (Result-cases run_place.0) [
    | inl (view, e) ↦
        let (after, _, _, can) = place_ok view e in rw after (sold-IsConsistent capacity h can)
    | inr (e, failure) ↦ elim (place_error e failure) [
      | inl same ↦ rw same h
      | inr (_, after, can) ↦ rw after (sold-IsConsistent capacity h can)
    ]
  ]

  pub place-activities :
      (run_place.1.activities ≡ db.activities)
      ⊎ (run_place.1.activities ≡ update_rows voucher_id take_one db.activities)
  place-activities = elim (Result-cases run_place.0) [
    | inl (view, e) ↦ inr (ap (λ (d : Database). d.activities) (place_ok view e).0)
    | inr (e, failure) ↦ elim (place_error e failure) [
      | inl same ↦ inl (ap (λ (d : Database). d.activities) same)
      | inr (_, after, _) ↦ inr (ap (λ (d : Database). d.activities) after)
    ]
  ]

-- When every statement is answered and the request is not canceled, a known user who may buy gets
-- the order: the conditions that `Place` needs are enough.
pub place_complete :
    (clock user_id voucher_id : ℕ) (db : Database)
    → 0 < user_id
    → 0 < voucher_id
    → CanPlace clock user_id voucher_id db
    → any (λ u. u == user_id) db.users ≡ true
    → any (λ v. v == voucher_id) db.vouchers ≡ true
    → run_place quiet clock none user_id voucher_id db ≡ (
      ok (order_view (placed clock user_id voucher_id db)),
      sell (placed clock user_id voucher_id db) db,
    )
unfolding place orders_repository place_within order_transaction
place_complete clock user_id voucher_id db hu hv can known real =
    ground (arith, any-eq-is_some (is_order_of user_id voucher_id) db.orders)

-- What a refusal of each kind says of the tables.
abbrev pub Refused : ℕ → ℕ → ℕ → Database → Option SeckillVoucher → Option Kind → Type 0
Refused clock user_id voucher_id db none k = k ≡ some Kind.not_found
Refused clock user_id voucher_id db (some row) (some Kind.conflict) = row.async_state ≢ 0
Refused clock user_id voucher_id db (some row) (some Kind.activity_not_started) =
    clock < row.begin_time
Refused clock user_id voucher_id db (some row) (some Kind.activity_ended) = row.end_time ≤ clock
Refused clock user_id voucher_id db (some row) (some Kind.already_purchased) =
    any (is_order_of user_id voucher_id) db.orders ≡ true
Refused clock user_id voucher_id db (some row) (some Kind.sold_out) =
    count (is_in_stock voucher_id) db.activities ≢ 1
Refused clock user_id voucher_id db (some row) (some Kind.not_found) =
    any (λ u. u == user_id) db.users && any (λ v. v == voucher_id) db.vouchers ≡ false
Refused clock user_id voucher_id db (some row) _ = ⊥

-- Each refusal has its reason: of a request by a user for a voucher, with every statement answered,
-- the kind of the error says what stood in the way.
pub place-Refused :
    (clock user_id voucher_id : ℕ) (db : Database) (e : Fault)
    → 0 < user_id
    → 0 < voucher_id
    → (run_place quiet clock none user_id voucher_id db).0 ≡ err e
    → Refused clock user_id voucher_id db
        (find (is_activity voucher_id) db.activities)
        (classified e)
unfolding place orders_repository place_within order_transaction
place-Refused clock user_id voucher_id db e hu hv h =
    ground (arith, any-eq-is_some (is_order_of user_id voucher_id) db.orders)
