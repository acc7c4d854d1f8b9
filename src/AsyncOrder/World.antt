-- ===== src/AsyncOrder/World.antt =====
-- The asynchronous orders over both stores: the service's interfaces filled by the repository on the
-- tables (internal/repository/async_order.go) and by the queue in Redis (internal/cache/seckill.go and
-- seckill_consumer.go), and what one delivery does to them.
use local_life_go.Prelude.{
  inr, inl, none, true, format_uint, some, find, Option, ℕ, ◌≡◌, refl, sym, subst, ◌∙◌, List, arith,
  if◌then◌else◌, Bool-cases, Text,
}
use local_life_go.Effects.{Result, ok, err, M, pure, ◌>>◌, Reply, Result-cases}
use local_life_go.Model.{SeckillVoucher, SeckillEvent, SeckillResult}
use local_life_go.Database.{Database, Replies}
use local_life_go.Seckill.{Server}
use local_life_go.Seckill.Cache.{
  Redis, reserve_for_generation, prepare_activity, receipt_for, check_activity, compensate_event,
  ack,
}
use local_life_go.Seckill.Cache.Messages.{Message, read, claim}
use local_life_go.Database.{is_activity}
use local_life_go.Seckill.Laws.{is_accepted}
use local_life_go.Seckill.{reserve}
use local_life_go.Seckill.Cache.Replies.{reserve_for_generation-is_accepted}
use local_life_go.AsyncOrder.{accept, SeckillView, pending}
use local_life_go.AsyncOrder.{AsyncOrders, SeckillQueue, process, is_failed}
use local_life_go.AsyncOrder.Repository
use local_life_go.AsyncOrder.Apply.{Settled, apply_ok}

pub record World : Type 0 where
  pub database : Database
  pub redis : Redis

abbrev pub on_database : {A : Type 0} → M Database A → M World A
on_database m w = let (r, after) = m w.database in (r, record { database = after; redis = w.redis })

abbrev pub on_redis : {A : Type 0} → M Redis A → M World A
on_redis m w = let (r, after) = m w.redis in (r, record { database = w.database; redis = after })

-- What the environment decides in one call: the replies of MySQL, its clock, the random token and the
-- stamp of GORM; the reply of Redis and the server's part in a script, for the compensation and for
-- the acknowledgement; and the messages that a read and a claim deliver.
pub record Environment : Type 0 where
  pub replies : Replies
  pub clock : ℕ
  pub token : Text
  pub stamp : ℕ
  pub reply : Reply
  pub ack_reply : Reply
  pub server : Server
  pub delivered : List Message
  pub claimed : List Message
  pub next : Text

unfoldable pub orders : Environment → AsyncOrders World
orders env = record {
  activity = λ id. on_database (Repository.activity env.replies id);
  stage = λ id. on_database (Repository.stage env.replies env.clock env.token id);
  activate = λ id generation. on_database (Repository.activate env.replies id generation);
  result = λ user_id voucher_id. on_database (Repository.result env.replies user_id voucher_id);
  apply = λ event. on_database (Repository.apply env.replies env.stamp event);
  active_ids = λ after limit. on_database (Repository.active_ids env.replies after limit);
}

unfoldable pub queue : Environment → SeckillQueue World
queue env = record {
  prepare = λ seed. on_redis (prepare_activity env.reply env.server seed);
  check = λ seed pristine. on_redis (check_activity env.reply seed pristine);
  reserve_for_generation = λ voucher_id user_id generation.
      on_redis (reserve_for_generation env.reply env.server voucher_id user_id generation);
  receipt = λ voucher_id user_id. on_redis (receipt_for env.reply voucher_id user_id);
  read = λ id w. let (events, faults) = read env.reply id env.delivered in (events, faults, w);
  claim = λ id start w.
      let (events, next, faults) = claim env.reply id start env.next env.claimed in
      (events, next, faults, w);
  compensate = λ event. on_redis (compensate_event env.reply event);
  ack = λ event. on_redis (ack env.ack_reply event);
}

abbrev pub run_process : Environment → SeckillEvent → World → Result (Unit {0}) × World
run_process env event w = process (orders env) (queue env) event w

-- Redis as a delivery with this result leaves it before the acknowledgement.
abbrev pub compensated_for : Environment → SeckillEvent → SeckillResult → Redis → Redis
compensated_for env event row redis =
    if is_failed row.status then (compensate_event env.reply event redis).1 else redis

-- What Process does once the event has been applied.
abbrev pub after_apply :
    Environment → SeckillEvent → Redis → Result SeckillResult → Database → Result (Unit {0}) × World
after_apply env event redis r db = elim r [
  | ok row ↦
      ((if is_failed row.status then on_redis (compensate_event env.reply event) else pure tt)
          >> on_redis (ack env.ack_reply event))
        (record { database = db; redis = redis })
  | err e ↦ (err e, record { database = db; redis = redis })
]

pub after_apply-stores :
    (env : Environment) (event : SeckillEvent) (redis : Redis) (row : SeckillResult) (db : Database)
    → (after_apply env event redis (ok row) db).0 ≡ ok tt
    → ((after_apply env event redis (ok row) db).1.database ≡ db)
      × ((after_apply env event redis (ok row) db).1.redis
          ≡ (ack env.ack_reply event (compensated_for env event row redis)).1)
after_apply-stores env event redis row db h = ground (
  arith,
  h,
  Bool-cases (is_failed row.status),
  Result-cases (compensate_event env.reply event redis).0,
)

by_result :
    (env : Environment) (event : SeckillEvent) (w : World) (r : Result SeckillResult)
    (db : Database)
    → (r ≡ (Repository.apply env.replies env.stamp event w.database).0)
    → (db ≡ (Repository.apply env.replies env.stamp event w.database).1)
    → (after_apply env event w.redis r db).0 ≡ ok tt
    → (row : SeckillResult) × Settled env.stamp event row w.database
        (after_apply env event w.redis r db).1.database
      × ((after_apply env event w.redis r db).1.redis
          ≡ (ack env.ack_reply event (compensated_for env event row w.redis)).1)
by_result env event w (err e) db er ed h = absurd (ground arith)
by_result env event w (ok row) db er ed h =
    let (tables, cache) = after_apply-stores env event w.redis row db h in
    let settled = apply_ok env.replies env.stamp event w.database row (sym er) in
    (row, subst (Settled env.stamp event row w.database) (sym (tables ∙ ed)) settled, cache)

-- A delivery that succeeds has settled its event in the tables, and has changed Redis by the
-- compensation exactly if the event failed, and then by the acknowledgement.
pub process_ok :
    (env : Environment) (event : SeckillEvent) (w : World)
    → (run_process env event w).0 ≡ ok tt
    → (row : SeckillResult) × Settled env.stamp event row w.database
        (run_process env event w).1.database
      × ((run_process env event w).1.redis
          ≡ (ack env.ack_reply event (compensated_for env event row w.redis)).1)
unfolding process orders queue
process_ok env event w h =
    by_result env event w (Repository.apply env.replies env.stamp event w.database).0
      (Repository.apply env.replies env.stamp event w.database).1 refl refl h

-- What stands behind an accepted request: the activity of the tables is asynchronous and active, and
-- the script admitted the user under its generation.
abbrev pub IsAccepted : Environment → ℕ → ℕ → World → SeckillView → Option SeckillVoucher → Type 0
IsAccepted env user_id voucher_id w view none = ⊥
IsAccepted env user_id voucher_id w view (some row) =
    (row.async_state ≡ 2)
    × (is_accepted
          (reserve env.server (format_uint voucher_id) (format_uint user_id)
            (some row.async_generation) (w.redis voucher_id)).0
        ≡ true)
    × (view.voucher_id ≡ voucher_id)
    × (view.status ≡ pending)

accept-IsAccepted :
    (env : Environment) (user_id voucher_id : ℕ) (w : World) (view : SeckillView)
    (found : Option SeckillVoucher)
    → find (is_activity voucher_id) w.database.activities ≡ found
    → (accept (orders env) (queue env) user_id voucher_id w).0 ≡ ok view
    → IsAccepted env user_id voucher_id w view found
unfolding accept orders queue Repository.activity
accept-IsAccepted env user_id voucher_id w view none e h = ground (arith, e, h)
accept-IsAccepted env user_id voucher_id w view (some row) e h =
    elim (Result-cases
      (reserve_for_generation env.reply env.server voucher_id user_id row.async_generation
        w.redis).0) [
          | inl (event, given) ↦
              let admitted =
                reserve_for_generation-is_accepted env.reply env.server voucher_id user_id
                  row.async_generation w.redis event given in
              ground (arith, e, h, given, admitted)
          | inr (_, refusal) ↦ ground (arith, e, h, refusal)
        ]

-- A request that Accept takes is of an activity that is asynchronous and active in the tables, the
-- script has admitted the user under the generation of the tables, and the tables are untouched.
pub accept_ok :
    (env : Environment) (user_id voucher_id : ℕ) (w : World) (view : SeckillView)
    → (accept (orders env) (queue env) user_id voucher_id w).0 ≡ ok view
    → IsAccepted env user_id voucher_id w view (find (is_activity voucher_id) w.database.activities)
      × ((accept (orders env) (queue env) user_id voucher_id w).1.database ≡ w.database)
unfolding accept orders queue Repository.activity
accept_ok env user_id voucher_id w view h = (
  accept-IsAccepted env user_id voucher_id w view
      (find (is_activity voucher_id) w.database.activities) refl h,
  ground arith,
)
