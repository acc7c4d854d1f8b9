-- ===== src/AsyncOrder/History.antt =====
-- The voucher tables over any history of calls, synchronous and asynchronous mixed, in any order
-- and with any failures: each call holds the activity's row lock to the end of its transaction, so
-- the transactions of one activity follow one another.
use local_life_go.Prelude.{
  refl, true, is_some, inr, inl, ◌⊎◌, [], arith, ◌∷◌, Text, none, ◌+◌, ◌≡◌, ◌≢◌, some, find, List,
  Option, ℕ,
}
use local_life_go.Order.Place.{Admits, place-activities, run_place, place_ok, place-IsConsistent}
use local_life_go.AsyncOrder.Apply.{apply-activities, run_apply, apply-IsConsistent}
use local_life_go.AsyncOrder.Activation.{
  activate-tables, Staged, stage-tables, stage_ok, run_stage, run_activate, stage-IsConsistent,
  activate-IsConsistent,
}
use local_life_go.Database.{take_one, update_rows, is_activity, Replies, Database}
use local_life_go.Model.{SeckillEvent, SeckillVoucher}
use local_life_go.Database.Laws.{stock-add-sales, OncePerUser, take_one-key, sales, IsConsistent}
use local_life_go.AppError.{Fault}
use local_life_go.Effects.{ok}
use local_life_go.Order.{OrderView}
use local_life_go.AsyncOrder.Repository.{activate_row, stage_row}

pub data Step : Database → Database → Type 0 where
  order_placed :
      (replies : Replies) (clock : ℕ) (ctx : Option Fault) (user_id voucher_id : ℕ) (db : Database)
      → Step db (run_place replies clock ctx user_id voucher_id db).1
  event_applied :
      (replies : Replies) (stamp : ℕ) (event : SeckillEvent) (db : Database)
      → Step db (run_apply replies stamp event db).1
  activity_staged :
      (replies : Replies) (clock : ℕ) (token : Text) (id : ℕ) (db : Database)
      → Step db (run_stage replies clock token id db).1
  activity_activated :
      (replies : Replies) (id : ℕ) (generation : Text) (db : Database)
      → Step db (run_activate replies id generation db).1

pub data Reach (start : Database) : Database → Type 0 where
  here : Reach start start
  later : {db db' : Database} → Reach start db → Step db db' → Reach start db'

Step-IsConsistent :
    (capacity : ℕ → ℕ) {db db' : Database}
    → Step db db'
    → IsConsistent capacity db
    → IsConsistent capacity db'
Step-IsConsistent capacity (order_placed replies clock ctx user_id voucher_id db) h =
    place-IsConsistent replies clock ctx user_id voucher_id db capacity h
Step-IsConsistent capacity (event_applied replies stamp event db) h =
    apply-IsConsistent replies stamp event db capacity h
Step-IsConsistent capacity (activity_staged replies clock token id db) h =
    stage-IsConsistent replies clock token id db capacity h
Step-IsConsistent capacity (activity_activated replies id generation db) h =
    activate-IsConsistent replies id generation db capacity h

pub Reach-IsConsistent :
    (capacity : ℕ → ℕ) {start db : Database}
    → IsConsistent capacity start
    → Reach start db
    → IsConsistent capacity db
Reach-IsConsistent capacity h here = h
Reach-IsConsistent capacity h (later r st) =
    Step-IsConsistent capacity st (Reach-IsConsistent capacity h r)

-- Nothing is oversold: after any history of calls on consistent tables, with any failures and lost
-- answers, what is left of a voucher and what is sold of it still make up its capacity, and no user
-- has two orders for one voucher.
pub never_oversold :
    (capacity : ℕ → ℕ) (start db : Database) (id : ℕ) (row : SeckillVoucher)
    → IsConsistent capacity start
    → Reach start db
    → find (is_activity id) db.activities ≡ some row
    → (row.stock + sales id db.orders ≡ capacity id) × OncePerUser db.orders
never_oversold capacity start db id row h r found =
    let after = Reach-IsConsistent capacity h r in
    (stock-add-sales capacity id db row after found, after.once)

-- The activity has left the synchronous mode.
abbrev IsFenced : Option SeckillVoucher → Type 0
IsFenced none = ⊥
IsFenced (some row) = row.async_state ≢ 0

update_rows-IsFenced :
    (id key : ℕ) (change : SeckillVoucher → SeckillVoucher) (rows : List SeckillVoucher)
    → ((row : SeckillVoucher) → (change row).voucher_id ≡ row.voucher_id)
    → ((row : SeckillVoucher) → (change row).async_state ≡ 0 → row.async_state ≡ 0)
    → IsFenced (find (is_activity id) rows)
    → IsFenced (find (is_activity id) (update_rows key change rows))
update_rows-IsFenced id key change [] same mode f = f
update_rows-IsFenced id key change (row ∷ rows) same mode f =
    ground (arith, same row, mode row, update_rows-IsFenced id key change rows same mode)

take_one-mode : (row : SeckillVoucher) → (take_one row).async_state ≡ 0 → row.async_state ≡ 0
take_one-mode row h = ground arith

-- Selling keeps the mode.
sold-IsFenced :
    (id key : ℕ) (rows rows' : List SeckillVoucher)
    → (rows' ≡ rows) ⊎ (rows' ≡ update_rows key take_one rows)
    → IsFenced (find (is_activity id) rows)
    → IsFenced (find (is_activity id) rows')
sold-IsFenced id key rows rows' (inl same) f = rw same f
sold-IsFenced id key rows rows' (inr after) f =
    rw after (update_rows-IsFenced id key take_one rows take_one-key take_one-mode f)

Step-IsFenced :
    (id : ℕ) {db db' : Database}
    → Step db db'
    → IsFenced (find (is_activity id) db.activities)
    → IsFenced (find (is_activity id) db'.activities)
Step-IsFenced id (order_placed replies clock ctx user_id voucher_id db) f =
    sold-IsFenced id voucher_id db.activities _
      (place-activities replies clock ctx user_id voucher_id db) f
Step-IsFenced id (event_applied replies stamp event db) f =
    sold-IsFenced id event.voucher_id db.activities _ (apply-activities replies stamp event db) f
Step-IsFenced id (activity_staged replies clock token key db) f =
    elim (stage-tables replies clock token key db) [
      | inl same ↦ rw same f
      | inr after ↦ rw after (
          update_rows-IsFenced id key (stage_row token) db.activities (λ _. refl)
            (λ _ h. absurd (omega arith)) f)
    ]
Step-IsFenced id (activity_activated replies key generation db) f =
    elim (activate-tables replies key generation db) [
      | inl same ↦ rw same f
      | inr after ↦ rw after (
          update_rows-IsFenced id key activate_row db.activities (λ _. refl)
            (λ _ h. absurd (omega arith)) f)
    ]

Reach-IsFenced :
    (id : ℕ) {start db : Database}
    → IsFenced (find (is_activity id) start.activities)
    → Reach start db
    → IsFenced (find (is_activity id) db.activities)
Reach-IsFenced id f here = f
Reach-IsFenced id f (later r st) = Step-IsFenced id st (Reach-IsFenced id f r)

staged-IsFenced :
    (token : Text) (id : ℕ) (rows : List SeckillVoucher)
    → is_some (find (is_activity id) rows) ≡ true
    → IsFenced (find (is_activity id) (update_rows id (stage_row token) rows))
staged-IsFenced token id [] h = cc
staged-IsFenced token id (row ∷ rows) h = ground (arith, staged-IsFenced token id rows)

Staged-IsFenced :
    (replies : Replies) (clock : ℕ) (token : Text) (id : ℕ) (db after : Database)
    (row : SeckillVoucher) (old : Option SeckillVoucher)
    → find (is_activity id) db.activities ≡ old
    → Staged replies clock token id db row old after
    → IsFenced (find (is_activity id) after.activities)
Staged-IsFenced replies clock token id db after row none e s = absurd s
Staged-IsFenced replies clock token id db after row (some old) e (inl (mode, _, same)) =
    rw (same, e) mode
Staged-IsFenced replies clock token id db after row (some old) e (inr (_, _, _, _, _, changed)) =
    rw changed (staged-IsFenced token id db.activities (rw e))

stage_ok-IsFenced :
    (replies : Replies) (clock : ℕ) (token : Text) (id : ℕ) (db : Database) (row : SeckillVoucher)
    → (run_stage replies clock token id db).0 ≡ ok row
    → IsFenced (find (is_activity id) (run_stage replies clock token id db).1.activities)
stage_ok-IsFenced replies clock token id db row h =
    Staged-IsFenced replies clock token id db (run_stage replies clock token id db).1 row
      (find (is_activity id) db.activities) refl (stage_ok replies clock token id db row h)

Admits-not_fenced : (clock : ℕ) (o : Option SeckillVoucher) → Admits clock o → IsFenced o → ⊥
Admits-not_fenced clock none a f = a
Admits-not_fenced clock (some row) a f = f a.0

-- Staging fences the synchronous writer: once `Stage` has succeeded for an activity, no later call
-- of `Place` for it succeeds, whatever calls lie between and however they fail.
pub stage_fences :
    (replies : Replies) (clock : ℕ) (token : Text) (id : ℕ) (start db : Database)
    (row : SeckillVoucher)
    → (run_stage replies clock token id start).0 ≡ ok row
    → Reach (run_stage replies clock token id start).1 db
    → (replies' : Replies) (clock' : ℕ) (ctx : Option Fault) (user_id : ℕ) (view : OrderView)
    → (run_place replies' clock' ctx user_id id db).0 ≢ ok view
stage_fences replies clock token id start db row staged r replies' clock' ctx user_id view placed =
    let (_, _, _, can) = place_ok replies' clock' ctx user_id id db view placed in
    Admits-not_fenced clock' (find (is_activity id) db.activities) can.admitted
      (Reach-IsFenced id (stage_ok-IsFenced replies clock token id start row staged) r)
