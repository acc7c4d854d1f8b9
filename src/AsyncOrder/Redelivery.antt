-- ===== src/AsyncOrder/Redelivery.antt =====
-- What a delivery does that comes again (Process of internal/service/async_order.go): Redis streams
-- deliver at least once.
use local_life_go.Prelude.{
  true, ◌⊎◌, Bool-cases, ap, sym, subst, format_uint, ==_refl, ==_iff, false, Bool, ◌∙◌, inr, inl,
  some, arith, find, ◌≡◌, ℕ,
}
use local_life_go.Prelude.{refl}
use local_life_go.AsyncOrder.World.{
  after_apply-stores, compensated_for, after_apply, World, Environment, orders, queue, run_process,
}
use local_life_go.Seckill.Recovery.{compensate}
use local_life_go.AsyncOrder.Repository.{apply, apply_within}
use local_life_go.Model.{SeckillResult, SeckillEvent}
use local_life_go.Database.{Statement, is_result_of, Database, Replies}
use local_life_go.Effects.{err, Result-cases, Result, done, Reply-cases, Reply, ok}
use local_life_go.Database.Laws.{transaction-cases}
use local_life_go.AsyncOrder.Apply.{Settled-recorded, apply_ok, Matches}
use local_life_go.Seckill.Cache.{Redis, ack, compensate_event}
use local_life_go.AppError.{is_record_not_found}
use local_life_go.Seckill.{Keys}
use local_life_go.Redis.{Key, holds, Hash}
use local_life_go.Seckill.Laws.{IsLedger}
use local_life_go.Seckill.Recovery.Compensation.{compensate_once}
use local_life_go.AsyncOrder.{process, is_failed}

-- The event has its result in the tables.
abbrev HasResult : SeckillEvent → SeckillResult → Database → Type 0
HasResult event row db =
    (find (is_result_of event.voucher_id event.id) db.results ≡ some row) × Matches event row

-- A failure of the connection that GORM's "record not found" could be mistaken for.
abbrev pub reports_missing : Reply → Bool
reports_missing done = false
reports_missing (Reply.failed e) = is_record_not_found e
reports_missing (Reply.unacknowledged e) = is_record_not_found e

within_again :
    (replies : Replies) (stamp : ℕ) (event : SeckillEvent) (db : Database) (row : SeckillResult)
    → reports_missing (replies Statement.find_result) ≡ false
    → HasResult event row db
    → (found : SeckillResult) → (apply_within replies stamp event db).0 ≡ ok found
    → (found ≡ row) × ((apply_within replies stamp event db).1 ≡ db)
unfolding apply_within
within_again replies stamp event db row q h found e =
    ground (arith, h, q, Reply-cases (replies Statement.find_result))

-- However its statements fail, a later Apply writes nothing, and can answer with that result only.
apply_again :
    (replies : Replies) (stamp : ℕ) (event : SeckillEvent) (db : Database) (row : SeckillResult)
    → reports_missing (replies Statement.find_result) ≡ false
    → HasResult event row db
    → ((apply replies stamp event db).1 ≡ db)
      × ((found : SeckillResult) → (apply replies stamp event db).0 ≡ ok found → found ≡ row)
unfolding apply
apply_again replies stamp event db row q h =
    elim (transaction-cases replies (apply_within replies stamp event) db) [
      | inl (same, e) ↦ (same, λ found ok_found. ground arith)
      | inr (found, success, after, answered) ↦
          let (is_row, same) = within_again replies stamp event db row q h found success in
          (after ∙ same, λ found' ok_found. ground arith)
    ]

abbrev compensate_for : SeckillEvent → Keys → ℕ × Keys
compensate_for event = compensate (format_uint event.user_id) event.id event.generation

-- The compensation of the event is answered with success and changes nothing.
abbrev IsReturned : SeckillEvent → Keys → Type 0
IsReturned event keys =
    ((compensate_for event keys).0 ≡ 1) × ((compensate_for event keys).1.state ≡ keys.state)

same_state-IsReturned :
    (event : SeckillEvent) (keys keys' : Keys)
    → keys'.state ≡ keys.state
    → IsReturned event keys
    → IsReturned event keys'
unfolding compensate
same_state-IsReturned event keys keys' e h = rw e h

ack-state :
    (reply : Reply) (event : SeckillEvent) (redis : Redis) (id : ℕ)
    → ((ack reply event redis).1 id).state ≡ (redis id).state
unfolding ack
ack-state reply event redis id = ground (arith, Reply-cases reply)

compensate_event-applied :
    (reply : Reply) (event : SeckillEvent) (redis : Redis)
    → (compensate_event reply event redis).0 ≡ ok tt
    → ((compensate_event reply event redis).1 event.voucher_id
        ≡ (compensate_for event (redis event.voucher_id)).1)
      × ((compensate_for event (redis event.voucher_id)).0 ≡ 1)
unfolding compensate_event
compensate_event-applied reply event redis success =
    ground (arith, Reply-cases reply, ==_refl event.voucher_id)

compensate-IsReturned :
    (event : SeckillEvent) (keys : Keys) (h : Hash) (left capacity : ℕ)
    → keys.state ≡ holds h
    → IsLedger left capacity h
    → (compensate_for event keys).0 ≡ 1
    → IsReturned event (compensate_for event keys).1
compensate-IsReturned event keys h left capacity e l =
    subst
      (λ (st : Key Hash).
        let keys' : Keys = record { state = st; events = keys.events } in
        (compensate_for event keys').0 ≡ 1 → IsReturned event (compensate_for event keys').1)
      (sym e)
      (λ one.
        let again =
          (compensate_once (format_uint event.user_id) event.id event.generation h keys.events left
            capacity l one).1 in
        (ap (λ r. r.0) again, ap (λ r. r.1.state) again))

-- The first compensation that reports success.
compensate_event-IsReturned :
    (reply : Reply) (event : SeckillEvent) (redis : Redis) (h : Hash) (left capacity : ℕ)
    → (redis event.voucher_id).state ≡ holds h
    → IsLedger left capacity h
    → (compensate_event reply event redis).0 ≡ ok tt
    → IsReturned event ((compensate_event reply event redis).1 event.voucher_id)
unfolding compensate_event
compensate_event-IsReturned reply event redis h left capacity e l success =
    let (after, one) = compensate_event-applied reply event redis success in
    rw after (compensate-IsReturned event (redis event.voucher_id) h left capacity e l one)

-- And any other after it.
compensate_event-state :
    (reply : Reply) (event : SeckillEvent) (redis : Redis) (id : ℕ)
    → IsReturned event (redis event.voucher_id)
    → ((compensate_event reply event redis).1 id).state ≡ (redis id).state
unfolding compensate_event
compensate_event-state reply event redis id r =
    ground (arith, r, Reply-cases reply, ==_iff id event.voucher_id)

-- Redis after a delivery that succeeded, where the event failed.
after_apply-IsReturned :
    (env : Environment) (event : SeckillEvent) (redis : Redis) (row : SeckillResult) (db : Database)
    (h : Hash) (left capacity : ℕ)
    → (redis event.voucher_id).state ≡ holds h
    → IsLedger left capacity h
    → (after_apply env event redis (ok row) db).0 ≡ ok tt
    → is_failed row.status ≡ true
    → IsReturned event ((after_apply env event redis (ok row) db).1.redis event.voucher_id)
after_apply-IsReturned env event redis row db h left capacity e l success failure =
    let answered : (compensate_event env.reply event redis).0 ≡ ok tt =
      ground (arith, Result-cases (compensate_event env.reply event redis).0) in
    let stored = (after_apply-stores env event redis row db success).1 in
    let compensated : compensated_for env event row redis
        ≡ (compensate_event env.reply event redis).1 =
      rw failure refl in
    same_state-IsReturned event _ _
      (ap (λ (r : Redis). (r event.voucher_id).state) stored
        ∙ ack-state env.ack_reply event (compensated_for env event row redis) event.voucher_id
        ∙ ap (λ (r : Redis). (r event.voucher_id).state) compensated)
      (compensate_event-IsReturned env.reply event redis h left capacity e l answered)

-- The state hashes after a delivery with the same result.
after_apply-state :
    (env : Environment) (event : SeckillEvent) (redis : Redis) (row : SeckillResult) (db : Database)
    → (is_failed row.status ≡ false) ⊎ IsReturned event (redis event.voucher_id)
    → (id : ℕ) → ((after_apply env event redis (ok row) db).1.redis id).state ≡ (redis id).state
after_apply-state env event redis row db (inl created) id =
    rw created (ack-state env.ack_reply event redis id)
after_apply-state env event redis row db (inr returned) id = ground (
  arith,
  Bool-cases (is_failed row.status),
  Result-cases (compensate_event env.reply event redis).0,
  compensate_event-state env.reply event redis id returned,
  ack-state env.ack_reply event redis id,
  ack-state env.ack_reply event (compensate_event env.reply event redis).1 id,
)

after_apply-database :
    (env : Environment) (event : SeckillEvent) (redis : Redis) (r : Result SeckillResult)
    (db : Database)
    → (after_apply env event redis r db).1.database ≡ db
after_apply-database env event redis (ok row) db = ground (
  arith,
  Bool-cases (is_failed row.status),
  Result-cases (compensate_event env.reply event redis).0,
)
after_apply-database env event redis (err e) db = refl

module _ (env env' : Environment) (event : SeckillEvent) (w : World)
    (honest : reports_missing (env'.replies Statement.find_result) ≡ false) where
  -- The second delivery, by what its Apply answers.
  second :
      (row : SeckillResult) (db : Database) (redis : Redis) (r : Result SeckillResult)
      (db' : Database)
      → db' ≡ db
      → ((found : SeckillResult) → r ≡ ok found → found ≡ row)
      → (is_failed row.status ≡ false) ⊎ IsReturned event (redis event.voucher_id)
      → ((after_apply env' event redis r db').1.database ≡ db)
        × ((id : ℕ) → ((after_apply env' event redis r db').1.redis id).state ≡ (redis id).state)
  second row db redis (err e) db' same only given = (same, λ id. refl)
  second row db redis (ok found) db' same only given = (
    after_apply-database env' event redis (ok found) db' ∙ same,
    after_apply-state env' event redis found db' (rw (only found refl) given),
  )

  first :
      (r : Result SeckillResult) (db : Database) (h : Hash) (left capacity : ℕ)
      → r ≡ (apply env.replies env.stamp event w.database).0
      → db ≡ (apply env.replies env.stamp event w.database).1
      → (w.redis event.voucher_id).state ≡ holds h
      → IsLedger left capacity h
      → (after_apply env event w.redis r db).0 ≡ ok tt
      → (row : SeckillResult) × HasResult event row (after_apply env event w.redis r db).1.database
        × ((is_failed row.status ≡ false)
            ⊎ IsReturned event ((after_apply env event w.redis r db).1.redis event.voucher_id))
  first (err e) db h left capacity er ed state l success = absurd (ground arith)
  first (ok row) db h left capacity er ed state l success =
      let settled = apply_ok env.replies env.stamp event w.database row (sym er) in
      (
        row,
        rw (after_apply-database env event w.redis (ok row) db, ed)
            (Settled-recorded env.stamp event row w.database _ settled),
        elim (Bool-cases (is_failed row.status)) [
          | inr created ↦ inl created
          | inl failure ↦ inr (
              after_apply-IsReturned env event w.redis row db h left capacity state l success
                failure)
        ],
      )

  -- A delivery that comes again after it succeeded sells nothing and gives no unit back, whatever
  -- fails in it: the tables and every state hash stay as they are. The hash is to be a balanced account
  -- before the first delivery, and no failure of the connection may be GORM's missing record.
  pub process_again :
      (h : Hash) (left capacity : ℕ)
      → (w.redis event.voucher_id).state ≡ holds h
      → IsLedger left capacity h
      → (run_process env event w).0 ≡ ok tt
      → let between = (run_process env event w).1 in
        let after = (run_process env' event between).1 in
        (after.database ≡ between.database)
        × ((id : ℕ) → (after.redis id).state ≡ (between.redis id).state)
  unfolding process orders queue
  process_again h left capacity state l success =
      let (r, db) = apply env.replies env.stamp event w.database in
      let between = (after_apply env event w.redis r db).1 in
      let (row, recorded, given) = first r db h left capacity refl refl state l success in
      let (same, only) =
        apply_again env'.replies env'.stamp event between.database row honest recorded in
      let (r', db') = apply env'.replies env'.stamp event between.database in
      second row between.database between.redis r' db' same only given
