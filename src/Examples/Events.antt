-- ===== src/Examples/Events.antt =====
-- Events of the queue on small tables.
use local_life_go.Prelude.{
  parse_uint, find, digits, none, ◌≡◌, refl, ◌⊎◌, true, some, [], ◌∷◌, Text, bytes, same_text,
}
use local_life_go.Effects.{ok, done, unacknowledged}
use local_life_go.AppError.{Kind, Fault}
use local_life_go.Model.{SeckillEvent, SeckillResult}
use local_life_go.Database.{Database, Statement, Replies, quiet}
use local_life_go.AsyncOrder.Repository.{apply, apply_within, created_result}
use local_life_go.Effects.{failed}
use local_life_go.Redis.{Entry, absent}
use local_life_go.Seckill.{entry_fields, Keys}
use local_life_go.Seckill.Cache.{ack}
use local_life_go.AsyncOrder.{process}
use local_life_go.Prelude.{parse_int, format_uint}
use local_life_go.Redis.{holds, hget, hset}
use local_life_go.Seckill.{reserve, is_generation, is_stream_id}
use local_life_go.Seckill.Recovery.{initial_state, empty_stream}
use local_life_go.Seckill.Cache.{reserve_for_generation, decode_reply}
use local_life_go.AsyncOrder.Repository.{activity}
use local_life_go.AsyncOrder.{accept, pending_view}
use local_life_go.Database.{is_activity}
use local_life_go.AsyncOrder.World.{
  IsAccepted, accept_ok, World, Environment, orders, queue, run_process, compensated_for,
  process_ok,
}
use local_life_go.AsyncOrder.Apply.{run_apply, Settled, apply_ok}
use local_life_go.AsyncOrder.Retained.{pass_of, process_retained}
use local_life_go.AsyncOrder.Retry.{apply_retry, Repeats}
use local_life_go.AsyncOrder.History.{here, later, event_applied}
use local_life_go.Seckill.Cache.Messages.{decode_messages, message_of, decode_message}

abbrev token : Text
token = bytes "0123456789abcdef0123456789abcdef"

-- An active asynchronous activity of one unit.
abbrev active_market : Database
active_market = record {
  users = 7 ∷ 8 ∷ [];
  vouchers = 5 ∷ [];
  activities =
      record {
        async_state = 2;
        async_generation = token;
        async_capacity = 1;
        voucher_id = 5;
        stock = 1;
        begin_time = 100;
        end_time = 200;
      }
      ∷ [];
  orders = [];
  results = [];
  next_id = 1;
}

abbrev event : SeckillEvent
event = record {
  id = bytes "150-0";
  voucher_id = 5;
  user_id = 7;
  generation = token;
  accepted_at = 150;
}

abbrev lost : Replies
lost Statement.commit = unacknowledged Fault.deadline_exceeded
lost _ = done

apply_ok_example :
    Settled 160 event
      (created_result event 1)
      active_market
      (run_apply quiet 160 event active_market).1
unfolding apply apply_within same_text
apply_ok_example = apply_ok quiet 160 event active_market (created_result event 1) refl

-- The answer to the first commit is lost; another user's event lies between the deliveries.
abbrev second : SeckillEvent
second = record event { id = bytes "151-0"; user_id = 8 }

abbrev between : Database
between = (run_apply quiet 170 second (run_apply lost 160 event active_market).1).1

apply_retry_example :
    ((run_apply lost 160 event active_market).1 ≡ active_market)
    ⊎ ((row : SeckillResult) × Settled 160 event row active_market
          (run_apply lost 160 event active_market).1
        × ((run_apply lost 900 event between).1 ≡ between)
        × Repeats row (run_apply lost 900 event between).0
        × ((run_apply quiet 900 event between).0 ≡ ok row))
apply_retry_example =
    apply_retry lost 160 event active_market between lost 900
      (later here (event_applied quiet 170 second (run_apply lost 160 event active_market).1))

-- The activity in Redis, with its unit.
abbrev open_keys : Keys
open_keys = record {
  state = holds (initial_state token (bytes "1") (bytes "100") (bytes "200"));
  events = holds empty_stream;
}

abbrev no_keys : Keys
no_keys = record { state = absent; events = absent }

abbrev world : World
world = record { database = active_market; redis = λ _. no_keys }

abbrev environment : Replies → Environment
environment replies = record {
  replies = replies;
  clock = 160;
  token = token;
  stamp = 160;
  reply = done;
  ack_reply = done;
  server = record { now_ms = 160; allowed = true; added = none; stored = true };
  delivered = [];
  claimed = [];
  next = [];
}

-- The transaction does not begin.
abbrev refused : Replies
refused Statement.begin = failed Fault.deadline_exceeded
refused _ = done

process_ok_example :
    (row : SeckillResult) × Settled 160 event row active_market
      (run_process (environment quiet) event world).1.database
    × ((run_process (environment quiet) event world).1.redis
        ≡ (ack done event (compensated_for (environment quiet) event row world.redis)).1)
unfolding process orders queue apply apply_within same_text ack
process_ok_example = process_ok (environment quiet) event world refl

-- The entry of the event, delivered and not acknowledged.
abbrev delivered_entry : Entry
delivered_entry = record {
  id = bytes "150-0";
  fields = entry_fields (bytes "5") (bytes "7") token (bytes "150");
}

abbrev delivered_keys : Keys
delivered_keys = record {
  state = absent;
  events = holds (record {
    entries = delivered_entry ∷ [];
    groups = bytes "orders" ∷ [];
    pending = bytes "150-0" ∷ [];
  });
}

abbrev delivered_world : World
delivered_world = record { database = active_market; redis = λ _. delivered_keys }

abbrev claiming : Environment
claiming = record (environment quiet) {
  claimed = message_of delivered_entry ∷ [];
  next = bytes "0-0";
}

process_retained_example :
    (((run_process (environment refused) event delivered_world).1.redis 5).events
      ≡ delivered_keys.events)
    × (pass_of 5
          (bytes "0-0")
          (claiming ∷ [])
          (run_process (environment refused) event delivered_world).1
        ≡ event ∷ [])
unfolding process orders queue apply same_text decode_message decode_messages decode_reply
    is_generation is_stream_id digits parse_int parse_uint format_uint
process_retained_example =
    process_retained (environment refused) event delivered_world
      (Fault.wrap Kind.dependency Fault.deadline_exceeded) [] [] (message_of delivered_entry)
      (bytes "0-0") (claiming ∷ []) refl refl refl refl (refl, tt) refl

abbrev open_world : World
open_world = record { database = active_market; redis = λ _. open_keys }

abbrev admitting : Environment
admitting = record (environment quiet) {
  server = record { now_ms = 150; allowed = true; added = some (bytes "150-0"); stored = true };
}

accept_ok_example :
    IsAccepted admitting 7 5 open_world
      (pending_view 5 event)
      (find (is_activity 5) active_market.activities)
    × ((accept (orders admitting) (queue admitting) 7 5 open_world).1.database ≡ active_market)
unfolding accept orders queue activity reserve_for_generation decode_reply reserve same_text hget
    hset digits is_generation is_stream_id parse_int format_uint
accept_ok_example = accept_ok admitting 7 5 open_world (pending_view 5 event) refl
