-- ===== src/AsyncOrder/Retry.antt =====
-- An event that is delivered again (Apply of internal/repository/async_order.go), at any later time.
use local_life_go.Prelude.{
  same_text_sound, any-eq-is_some, ℕ, ◌≡◌, refl, sym, ap, subst, ◌∙◌, inl, inr, ◌⊎◌, true, false,
  Option, some, List, find, Text, same_text, arith, Bool-cases, is_some, ◌&&◌, ◌==◌,
}
use local_life_go.AppError.{Kind, classified, Fault}
use local_life_go.Effects.{Result, ok, err, Result-cases}
use local_life_go.Model.{SeckillVoucher, SeckillEvent, SeckillResult}
use local_life_go.Database.{
  take_one, update_rows, settle, Database, Replies, quiet, is_result_of, is_activity,
}
use local_life_go.Database.Laws.{take_one-key, find-update_rows, transaction-cases}
use local_life_go.AsyncOrder.Repository.{activate_row, stage_row, apply, apply_within}
use local_life_go.AsyncOrder.Apply.{
  apply_error, apply-activities, Settled, Settled-recorded, Matches, within_ok, run_apply,
}
use local_life_go.AsyncOrder.Activation.{stage-tables, activate-tables}
use local_life_go.AsyncOrder.History.{
  Step, Reach, order_placed, event_applied, activity_staged, activity_activated, here, later,
}
use local_life_go.Order.Place.{place-activities, run_place, place_ok, place_error}

-- The result of an event, where there is one.
abbrev pub result_of : ℕ → Text → Database → Option SeckillResult
result_of voucher_id id db = find (is_result_of voucher_id id) db.results

-- A call for an event that has its result writes nothing, and gives no other result.
known_within :
    (replies : Replies) (stamp : ℕ) (event : SeckillEvent) (row : SeckillResult) (db : Database)
    (r : SeckillResult)
    → result_of event.voucher_id event.id db ≡ some row
    → (apply_within replies stamp event db).0 ≡ ok r
    → ((apply_within replies stamp event db).1 ≡ db) × (r ≡ row)
unfolding apply_within
known_within replies stamp event row db r f h =
    ground (arith, f, h, any-eq-is_some (is_result_of event.voucher_id event.id) db.results)

apply-within :
    (replies : Replies) (stamp : ℕ) (event : SeckillEvent) (db : Database) (r : SeckillResult)
    → (run_apply replies stamp event db).0 ≡ ok r
    → (apply_within replies stamp event db).0 ≡ ok r
unfolding apply settle
apply-within replies stamp event db r h = ground arith

known_apply :
    (replies : Replies) (stamp : ℕ) (event : SeckillEvent) (row : SeckillResult) (db : Database)
    → result_of event.voucher_id event.id db ≡ some row
    → ((run_apply replies stamp event db).1 ≡ db)
      × ((r : SeckillResult) → (run_apply replies stamp event db).0 ≡ ok r → r ≡ row)
unfolding apply
known_apply replies stamp event row db f = (
  elim (transaction-cases replies (apply_within replies stamp event) db) [
    | inl (kept, _) ↦ kept
    | inr (found, success, after, _) ↦
        after ∙ (known_within replies stamp event row db found f success).0
  ],
  λ r h. (known_within replies stamp event row db r f (apply-within replies stamp event db r h)).1,
)

-- Another event's result does not hide this one.
Settled-result_of :
    (stamp : ℕ) (event : SeckillEvent) (row : SeckillResult) (db db' : Database) (voucher_id : ℕ)
    (id : Text)
    → Settled stamp event row db db'
    → (event.voucher_id == voucher_id) && same_text event.id id ≡ false
    → result_of voucher_id id db' ≡ result_of voucher_id id db
Settled-result_of stamp event row db db' voucher_id id s other = ground arith

other_apply :
    (replies : Replies) (stamp : ℕ) (event : SeckillEvent) (db : Database) (voucher_id : ℕ)
    (id : Text)
    → (event.voucher_id == voucher_id) && same_text event.id id ≡ false
    → result_of voucher_id id (run_apply replies stamp event db).1 ≡ result_of voucher_id id db
unfolding apply
other_apply replies stamp event db voucher_id id other =
    elim (transaction-cases replies (apply_within replies stamp event) db) [
      | inl (kept, _) ↦ ap (result_of voucher_id id) kept
      | inr (row, success, after, _) ↦
          ap (result_of voucher_id id) after
          ∙ Settled-result_of stamp event row db _ voucher_id id
              (within_ok replies stamp event db row success).0 other
    ]

same_event :
    (replies : Replies) (stamp : ℕ) (event : SeckillEvent) (row : SeckillResult) (db : Database)
    (voucher_id : ℕ) (id : Text)
    → event.voucher_id ≡ voucher_id
    → event.id ≡ id
    → result_of voucher_id id db ≡ some row
    → result_of voucher_id id (run_apply replies stamp event db).1 ≡ some row
same_event replies stamp event row db voucher_id id same_voucher same_id f =
    ap (result_of voucher_id id)
      (known_apply replies stamp event row db (rw (same_voucher, same_id) f)).0
    ∙ f

module _ (voucher_id : ℕ) (id : Text) (row : SeckillResult) where
  abbrev IsRecorded : Database → Type 0
  IsRecorded db =
      (result_of voucher_id id db ≡ some row)
      × (is_some (find (is_activity voucher_id) db.activities) ≡ true)

  -- Selling keeps the activity.
  sold-activity :
      (key : ℕ) (rows rows' : List SeckillVoucher)
      → (rows' ≡ rows) ⊎ (rows' ≡ update_rows key take_one rows)
      → is_some (find (is_activity voucher_id) rows') ≡ is_some (find (is_activity voucher_id) rows)
  sold-activity key rows rows' (inl same) = rw same refl
  sold-activity key rows rows' (inr after) =
      rw after (find-update_rows key voucher_id take_one rows take_one-key)

  place-results :
      (replies : Replies) (clock : ℕ) (ctx : Option Fault) (user_id key : ℕ) (db : Database)
      → (run_place replies clock ctx user_id key db).1.results ≡ db.results
  place-results replies clock ctx user_id key db =
      elim (Result-cases (run_place replies clock ctx user_id key db).0) [
        | inl (view, given) ↦
            ap (λ (d : Database). d.results)
              (place_ok replies clock ctx user_id key db view given).0
        | inr (e, failed) ↦ elim (place_error replies clock ctx user_id key db e failed) [
          | inl same ↦ ap (λ (d : Database). d.results) same
          | inr (_, after, _) ↦ ap (λ (d : Database). d.results) after
        ]
      ]

  applied-IsRecorded :
      (replies : Replies) (stamp : ℕ) (event : SeckillEvent) (db : Database)
      → result_of voucher_id id db ≡ some row
      → result_of voucher_id id (run_apply replies stamp event db).1 ≡ some row
  applied-IsRecorded replies stamp event db f =
      elim (Bool-cases ((event.voucher_id == voucher_id) && same_text event.id id)) [
        | inl same ↦
            same_event replies stamp event row db voucher_id id (ground arith)
              (same_text_sound event.id id (ground arith)) f
        | inr other ↦ other_apply replies stamp event db voucher_id id other ∙ f
      ]

  Step-IsRecorded : {db db' : Database} → Step db db' → IsRecorded db → IsRecorded db'
  Step-IsRecorded (order_placed replies clock ctx user_id key db) (f, a) = (
    rw (place-results replies clock ctx user_id key db) f,
    sold-activity key db.activities _ (place-activities replies clock ctx user_id key db) ∙ a,
  )
  Step-IsRecorded (event_applied replies stamp event db) (f, a) = (
    applied-IsRecorded replies stamp event db f,
    sold-activity event.voucher_id db.activities _ (apply-activities replies stamp event db) ∙ a,
  )
  Step-IsRecorded (activity_staged replies clock token key db) (f, a) =
      elim (stage-tables replies clock token key db) [
        | inl same ↦ rw same (f, a)
        | inr after ↦
            rw after
              (f, find-update_rows key voucher_id (stage_row token) db.activities (λ _. refl) ∙ a)
      ]
  Step-IsRecorded (activity_activated replies key generation db) (f, a) =
      elim (activate-tables replies key generation db) [
        | inl same ↦ rw same (f, a)
        | inr after ↦
            rw after (f, find-update_rows key voucher_id activate_row db.activities (λ _. refl) ∙ a)
      ]

  Reach-IsRecorded : {start db : Database} → IsRecorded start → Reach start db → IsRecorded db
  Reach-IsRecorded h here = h
  Reach-IsRecorded h (later r st) = Step-IsRecorded st (Reach-IsRecorded h r)

-- Unless a statement fails, an event that has its result is answered from it.
answered :
    (stamp : ℕ) (event : SeckillEvent) (row : SeckillResult) (db : Database)
    → result_of event.voucher_id event.id db ≡ some row
    → Matches event row
    → is_some (find (is_activity event.voucher_id) db.activities) ≡ true
    → (run_apply quiet stamp event db).0 ≡ ok row
unfolding apply apply_within
answered stamp event row db f m locked = ground arith

-- The answer of a further delivery: the recorded result, or a failure that is retried.
abbrev pub Repeats : SeckillResult → Result SeckillResult → Type 0
Repeats row (ok r) = r ≡ row
Repeats row (err e) = classified e ≡ some Kind.dependency

known-Repeats :
    (replies : Replies) (stamp : ℕ) (event : SeckillEvent) (row : SeckillResult) (db : Database)
    (answer : Result SeckillResult)
    → (run_apply replies stamp event db).0 ≡ answer
    → result_of event.voucher_id event.id db ≡ some row
    → Repeats row answer
known-Repeats replies stamp event row db (ok r) h f =
    (known_apply replies stamp event row db f).1 r h
known-Repeats replies stamp event row db (err e) h f = (apply_error replies stamp event db e h).0

-- Whatever becomes of a first delivery, the tables are as they were, or the event is settled with a
-- result. Then at any time later, whatever orders, events and changes of the activities came between
-- and however they failed, a further delivery of the event writes nothing, whatever fails in it; it
-- returns that result or a dependency failure, and the result if no statement of it fails.
pub apply_retry :
    (replies : Replies) (stamp : ℕ) (event : SeckillEvent) (db afterwards : Database)
    (replies' : Replies) (stamp' : ℕ)
    → Reach (run_apply replies stamp event db).1 afterwards
    → ((run_apply replies stamp event db).1 ≡ db)
      ⊎ ((row : SeckillResult) × Settled stamp event row db (run_apply replies stamp event db).1
          × ((run_apply replies' stamp' event afterwards).1 ≡ afterwards)
          × Repeats row (run_apply replies' stamp' event afterwards).0
          × ((run_apply quiet stamp' event afterwards).0 ≡ ok row))
unfolding apply
apply_retry replies stamp event db afterwards replies' stamp' reached =
    elim (transaction-cases replies (apply_within replies stamp event) db) [
      | inl (same, _) ↦ inl same
      | inr (row, success, after, _) ↦
          let first = (run_apply replies stamp event db).1 in
          let (within, locked) = within_ok replies stamp event db row success in
          let settled = subst (Settled stamp event row db) (sym after) within in
          let (recorded, matches) = Settled-recorded stamp event row db first settled in
          let kept =
            sold-activity event.voucher_id event.id row event.voucher_id db.activities
              first.activities (apply-activities replies stamp event db) in
          let (f, a) =
            Reach-IsRecorded event.voucher_id event.id row (recorded, kept ∙ locked) reached in
          inr (
            row,
            settled,
            (known_apply replies' stamp' event row afterwards f).0,
            known-Repeats replies' stamp' event row afterwards _ refl f,
            answered stamp' event row afterwards f matches a,
          )
    ]
