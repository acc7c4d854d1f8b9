-- ===== src/Examples/Worker.antt =====
-- The worker and a repeated delivery on small stores.
use local_life_go.Prelude.{
  some, digits, inl, refl, ap, Bool-cases, ◌++◌, format_uint, same_text, sym, bytes, ◌≡◌, none,
  false, arith, ◌==◌, [], if◌then◌else◌, ◌∷◌, true, Bool, Text, List, ℕ,
}
use local_life_go.Effects.{ok, pure, raise, done}
use local_life_go.AsyncOrder.Worker.{run_worker}
use local_life_go.Seckill.Cache.{ack, compensate_event}
use local_life_go.Database.{Database, quiet}
use local_life_go.AsyncOrder.World.{World, Environment, orders, queue, run_process}
use local_life_go.AsyncOrder.Repository.{apply, apply_within, created_result}
use local_life_go.Seckill.Recovery.{compensate}
use local_life_go.Redis.{absent, Hash, hget, holds}
use local_life_go.AsyncOrder.Worker.Laws.{run_worker-IsCaughtUp, IsCaughtUp, Journal, AtEveryRound}
use local_life_go.Model.{SeckillEvent, SeckillVoucher}
use local_life_go.AsyncOrder.{AsyncOrders, SeckillQueue, process}
use local_life_go.AsyncOrder.Worker.{run_worker, Wake}
use local_life_go.AsyncOrder.Worker.Scan.{scans-active_keys, scans}
use local_life_go.Database.Laws.{IsConsistent}
use local_life_go.AsyncOrder.Redelivery.{process_again}
use mathlib.Core.List.{append-nil}
use local_life_go.Seckill.Laws.{IsLedger}
use local_life_go.AppError.{Fault}

abbrev token : Text
token = bytes "0123456789abcdef0123456789abcdef"

abbrev event_of : ℕ → SeckillEvent
event_of user_id = record {
  id = bytes "150-0";
  voucher_id = 5;
  user_id = user_id;
  generation = token;
  accepted_at = 150;
}

-- What was handed over, and what was tried.
abbrev Ledger : Type 0
Ledger = List SeckillEvent × List SeckillEvent

abbrev ledger_orders : AsyncOrders Ledger
ledger_orders = record {
  activity = λ _. raise Fault.other;
  stage = λ _. raise Fault.other;
  activate = λ _ _. raise Fault.other;
  result = λ _ _. raise Fault.other;
  apply = λ event s. (ok (created_result event 1), (s.0, s.1 ++ event ∷ []));
  active_ids = λ _ _. pure (5 ∷ 6 ∷ []);
}

-- Each claim hands one delivery over and reports a malformed one.
abbrev ledger_queue : SeckillQueue Ledger
ledger_queue = record {
  prepare = λ _. raise Fault.other;
  check = λ _ _. raise Fault.other;
  reserve_for_generation = λ _ _ _. raise Fault.other;
  receipt = λ _ _. raise Fault.other;
  read = λ _ s. ([], none, s);
  claim =
      λ id _ s. (event_of id ∷ [], bytes "0-0", some Fault.other, (s.0 ++ event_of id ∷ [], s.1));
  compensate = λ _. raise Fault.other;
  ack = λ _. pure tt;
}

abbrev never_done : Ledger → Bool × Ledger
never_done s = (false, s)

abbrev ticking : Ledger → Wake × Ledger
ticking s = (Wake.tick_due, s)

process_tries :
    (event : SeckillEvent) (s : Ledger)
    → (process ledger_orders ledger_queue event s).1 ≡ (s.0, s.1 ++ event ∷ [])
unfolding process
process_tries event s = refl

abbrev ledger_journal : Journal ledger_orders ledger_queue never_done ticking
ledger_journal = record {
  handed = λ s. s.0;
  tried = λ s. s.1;
  done_handed = λ _. refl;
  done_tried = λ _. refl;
  wait_handed = λ _. refl;
  wait_tried = λ _. refl;
  scan_handed = λ _ _ _. refl;
  scan_tried = λ _ _ _. refl;
  claim_handed = λ _ _ _. refl;
  claim_tried = λ _ _ _. refl;
  read_handed = λ _ s. sym (append-nil s.0);
  read_tried = λ _ _. refl;
  process_handed = λ event s. ap (λ (t : Ledger). t.0) (process_tries event s);
  process_tried = λ event s. ap (λ (t : Ledger). t.1) (process_tries event s);
}

run_worker-IsCaughtUp_example :
    AtEveryRound
      (IsCaughtUp ledger_orders ledger_queue never_done ticking ledger_journal (λ _. refl) [])
      (run_worker ledger_orders ledger_queue never_done ticking (bytes "a") true 3 ([], []))
run_worker-IsCaughtUp_example =
    run_worker-IsCaughtUp ledger_orders ledger_queue never_done ticking ledger_journal (λ _. refl)
      (bytes "a") true 3 ([], []) refl refl

abbrev active : ℕ → ℕ → SeckillVoucher
active id stock = record {
  async_state = 2;
  async_generation = token;
  async_capacity = stock;
  voucher_id = id;
  stock = stock;
  begin_time = 100;
  end_time = 200;
}

-- Two active activities, one with a unit one that is sold out.
abbrev market : Database
market = record {
  users = 7 ∷ [];
  vouchers = 5 ∷ 4 ∷ [];
  activities = active 5 1 ∷ active 4 0 ∷ [];
  orders = [];
  results = [];
  next_id = 1;
}

abbrev capacity : ℕ → ℕ
capacity id = if id == 5 then 1 else 0

market-IsConsistent : IsConsistent capacity market
market-IsConsistent = record {
  balanced = (refl, (refl, tt));
  once = tt;
  keys = λ id. ground (arith, Bool-cases (5 == id), Bool-cases (4 == id));
  fresh = tt;
}

scans-active_keys_example : scans 1 0 market ≡ (4 ∷ 5 ∷ [], 0)
scans-active_keys_example =
    scans-active_keys market capacity market-IsConsistent (omega arith, (omega arith, tt))

abbrev sold_state : Hash
sold_state =
    (bytes "buyer:9", bytes "150-0")
    ∷ (bytes "version", bytes "1")
    ∷ (bytes "generation", token)
    ∷ (bytes "stock", bytes "1")
    ∷ (bytes "capacity", bytes "2")
    ∷ []

sold_state-IsLedger : IsLedger 1 2 sold_state
unfolding hget same_text format_uint
sold_state-IsLedger = record {
  stocked = refl;
  capped = refl;
  exact_capacity = omega arith;
  balance = refl;
  marked = λ id. inl refl;
}

abbrev world : World
world = record {
  database = market;
  redis = λ _. record { state = holds sold_state; events = absent };
}

abbrev environment : Environment
environment = record {
  replies = quiet;
  clock = 160;
  token = token;
  stamp = 160;
  reply = done;
  ack_reply = done;
  server = record { now_ms = 160; allowed = true; added = none; stored = true };
  delivered = [];
  claimed = [];
  next = [];
}

-- The user of the event does not exist: it fails, and its unit comes back once.
process_again_example :
    let between = (run_process environment (event_of 9) world).1 in
    let after = (run_process environment (event_of 9) between).1 in
    (after.database ≡ between.database)
    × ((id : ℕ) → (after.redis id).state ≡ (between.redis id).state)
unfolding process orders queue apply apply_within compensate same_text hget compensate_event
    format_uint digits ack
process_again_example =
    process_again environment environment (event_of 9) world refl sold_state 1 2 refl
      sold_state-IsLedger refl
