-- ===== src/AsyncOrder/Retained.antt =====
-- A delivery that fails (Process of internal/service/async_order.go): its entry stays pending, and the
-- claims of the consumer (internal/cache/seckill_consumer.go) hand its event over again.
use local_life_go.Prelude.{
  Bool-cases, sym, ap, same_text, any, refl, All, select, ◌∙◌, false, map, arith, ◌≡◌, [], ◌∷◌,
  ◌++◌, Text, List, ℕ,
}
use local_life_go.AsyncOrder.Repository
use local_life_go.Seckill.Recovery.{compensate}
use local_life_go.Seckill.Cache.{ack, compensate_event}
use local_life_go.Seckill.Cache.Messages.{claim}
use local_life_go.AsyncOrder.World.{World, Environment, queue, orders, run_process, after_apply}
use local_life_go.Redis.{other_type, absent, Entry, holds, Stream, Key}
use local_life_go.Seckill.Cache.{Redis, compensate_event}
use local_life_go.AsyncOrder.{is_failed, process}
use local_life_go.Seckill.Cache.Messages.{message_of, decode_message, Message, decode_messages}
use local_life_go.Model.{SeckillResult, SeckillEvent}
use local_life_go.AppError.{Fault}
use local_life_go.Effects.{
  Result, Reply-cases, done, err, Result-cases, ok, Reply, is_unacknowledged,
}
use local_life_go.Database.{Database}

-- The compensation leaves the stream alone.
compensate_event-events :
    (reply : Reply) (event : SeckillEvent) (redis : Redis)
    → ((compensate_event reply event redis).1 event.voucher_id).events
      ≡ (redis event.voucher_id).events
unfolding compensate_event compensate
compensate_event-events reply event redis = ground (arith, Reply-cases reply)

after_apply-events :
    (env : Environment) (event : SeckillEvent) (redis : Redis) (r : Result SeckillResult)
    (db : Database) (e : Fault)
    → is_unacknowledged env.ack_reply ≡ false
    → (after_apply env event redis r db).0 ≡ err e
    → ((after_apply env event redis r db).1.redis event.voucher_id).events
      ≡ (redis event.voucher_id).events
unfolding ack
after_apply-events env event redis (err f) db e a h = refl
after_apply-events env event redis (ok row) db e a h = ground (
  arith,
  a,
  h,
  compensate_event-events env.reply event redis,
  Bool-cases (is_failed row.status),
  Result-cases (compensate_event env.reply event redis).0,
  Reply-cases env.ack_reply,
)

-- The messages of the entries that are delivered and not acknowledged.
abbrev pub pending_messages : Key Stream → List Message
pending_messages absent = []
pending_messages other_type = []
pending_messages (holds stream) =
    map message_of (select (λ (e : Entry). any (same_text e.id) stream.pending) stream.entries)

-- What a pass of claims hands over, one page in each environment, each from the cursor before.
abbrev pub pass_of : ℕ → Text → List Environment → World → List SeckillEvent
pass_of id start [] w = []
pass_of id start (env ∷ envs) w =
    let (events, next, faults, w') = (queue env).claim id start w in
    events ++ pass_of id next envs w'

abbrev pub pages : List Environment → List Message
pages [] = []
pages (env ∷ envs) = env.claimed ++ pages envs

decode_messages-append :
    (id : ℕ) (xs ys : List Message)
    → (decode_messages id (xs ++ ys)).0 ≡ (decode_messages id xs).0 ++ (decode_messages id ys).0
unfolding decode_messages
decode_messages-append id [] ys = refl
decode_messages-append id (x ∷ xs) ys =
    ground (arith, decode_messages-append id xs ys, Result-cases (decode_message id x))

pass_of-pages :
    (id : ℕ) (start : Text) (envs : List Environment) (w : World)
    → All (λ (env : Environment). env.reply ≡ done) envs
    → pass_of id start envs w ≡ (decode_messages id (pages envs)).0
unfolding queue claim decode_messages
pass_of-pages id start [] w answered = refl
pass_of-pages id start (env ∷ envs) w (answered, others) = rw answered (
    ap (λ events. (decode_messages id env.claimed).0 ++ events)
      (pass_of-pages id env.next envs w others)
    ∙ sym (decode_messages-append id env.claimed (pages envs)))

decode_messages-first :
    (id : ℕ) (message : Message) (rest : List Message) (event : SeckillEvent)
    → decode_message id message ≡ ok event
    → (decode_messages id (message ∷ rest)).0 ≡ event ∷ (decode_messages id rest).0
unfolding decode_messages
decode_messages-first id message rest event decoded = rw decoded refl

decode_messages-found :
    (id : ℕ) (earlier rest : List Message) (message : Message) (event : SeckillEvent)
    → decode_message id message ≡ ok event
    → (decode_messages id (earlier ++ (message ∷ rest))).0
      ≡ (decode_messages id earlier).0 ++ (event ∷ (decode_messages id rest).0)
decode_messages-found id earlier rest message event decoded =
    decode_messages-append id earlier (message ∷ rest)
    ∙ ap (λ events. (decode_messages id earlier).0 ++ events)
        (decode_messages-first id message rest event decoded)

-- A delivery that fails is delivered again. Unless the reply to its acknowledgement was lost, the
-- stream of its activity, with the entries and what is pending, is what it was; and if the entry of
-- the event is pending, a pass of claims that Redis answers, whose pages make up what is pending,
-- hands the event over, in its place among the other events that are pending.
pub process_retained :
    (env : Environment) (event : SeckillEvent) (w : World) (e : Fault) (earlier rest : List Message)
    (message : Message) (start : Text) (envs : List Environment)
    → is_unacknowledged env.ack_reply ≡ false
    → (run_process env event w).0 ≡ err e
    → pending_messages (w.redis event.voucher_id).events ≡ earlier ++ (message ∷ rest)
    → decode_message event.voucher_id message ≡ ok event
    → All (λ (claiming : Environment). claiming.reply ≡ done) envs
    → pages envs ≡ pending_messages ((run_process env event w).1.redis event.voucher_id).events
    → (((run_process env event w).1.redis event.voucher_id).events
        ≡ (w.redis event.voucher_id).events)
      × (pass_of event.voucher_id start envs (run_process env event w).1
          ≡ (decode_messages event.voucher_id earlier).0
            ++ (event ∷ (decode_messages event.voucher_id rest).0))
unfolding process orders queue
process_retained env event w e earlier rest message start envs a h waiting decoded answered paged =
    let kept =
      after_apply-events env event w.redis
        (Repository.apply env.replies env.stamp event w.database).0
        (Repository.apply env.replies env.stamp event w.database).1 e a h in
    (
      kept,
      pass_of-pages event.voucher_id start envs _ answered
          ∙ ap (λ messages. (decode_messages event.voucher_id messages).0)
              (paged ∙ ap pending_messages kept ∙ waiting)
          ∙ decode_messages-found event.voucher_id earlier rest message event decoded,
    )
