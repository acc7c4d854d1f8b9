-- ===== src/Examples/Tickets.antt =====
-- Reservations on a small activity in Redis.
use local_life_go.Prelude.{
  ℕ, ◌+◌, ◌≤◌, ◌≡◌, refl, inl, true, false, none, some, [], ◌∷◌, arith, Text, bytes, same_text,
  digits, format_uint,
}
use local_life_go.Redis.{holds, Hash, Stream, hget}
use local_life_go.Seckill.{Keys, Server, reserve, is_stream_id, is_generation}
use local_life_go.Seckill.Laws.{IsLedger, is_accepted, run_reserve, Admitted, reserve_admits}
use local_life_go.Seckill.Recovery.{receipt, compensate}
use local_life_go.Seckill.Recovery.Receipts.{receipt-reserve}
use local_life_go.Seckill.Recovery.Compensation.{run_compensate, compensate_once}
use local_life_go.Seckill.Tickets.{one_ticket, here, later, compensated}
use local_life_go.Seckill.Cache.Reserved.{Promised, decode-reserved}

abbrev token : Text
token = bytes "0123456789abcdef0123456789abcdef"

abbrev ticket : Text
ticket = bytes "150-0"

abbrev state_of : Text → Hash
state_of stock =
    (bytes "version", bytes "1")
    ∷ (bytes "generation", token)
    ∷ (bytes "stock", stock)
    ∷ (bytes "capacity", bytes "2")
    ∷ (bytes "begin_ms", bytes "100")
    ∷ (bytes "end_ms", bytes "200")
    ∷ []

abbrev open_state : Hash
open_state = state_of (bytes "2")

abbrev empty_events : Stream
empty_events = record { entries = []; groups = bytes "orders" ∷ []; pending = [] }

abbrev at_150 : Server
at_150 = record { now_ms = 150; allowed = true; added = some ticket; stored = true }

abbrev at_250 : Server
at_250 = record { now_ms = 250; allowed = true; added = some ticket; stored = true }

open_state-IsLedger : IsLedger 2 2 open_state
unfolding hget same_text format_uint
open_state-IsLedger = record {
  stocked = refl;
  capped = refl;
  exact_capacity = omega arith;
  balance = refl;
  marked = λ id. inl refl;
}

-- The same activity after user 7 has a ticket.
abbrev sold_state : Hash
sold_state = (bytes "buyer:7", ticket) ∷ state_of (bytes "1")

sold_state-IsLedger : IsLedger 1 2 sold_state
unfolding hget same_text format_uint
sold_state-IsLedger = record {
  stocked = refl;
  capped = refl;
  exact_capacity = omega arith;
  balance = refl;
  marked = λ id. inl refl;
}

reserve_admits_example : Admitted at_150 (bytes "5") (bytes "7") none open_state empty_events 2 2
unfolding reserve same_text hget digits is_generation
reserve_admits_example =
    reserve_admits at_150 (bytes "5") (bytes "7") none open_state empty_events 2 2
      open_state-IsLedger refl

abbrev with_ticket : Keys
with_ticket = (run_reserve at_150 (bytes "5") (bytes "7") none open_state empty_events).1

-- The unit of the ticket has been given back.
abbrev given_back : Keys
given_back = (compensate (bytes "7") ticket token with_ticket).1

one_ticket_example :
    (is_accepted (reserve at_150 (bytes "5") (bytes "7") none given_back).0 ≡ false)
    × ((reserve at_150 (bytes "5") (bytes "7") none given_back).1 ≡ given_back)
unfolding reserve same_text hget digits is_generation
one_ticket_example =
    one_ticket at_150 at_150 (bytes "5") (bytes "7") none none open_state empty_events 2 2
      given_back open_state-IsLedger refl
      (later here (compensated (bytes "7") ticket token with_ticket))

receipt-reserve_example :
    receipt
      (bytes "5")
      (bytes "7")
      (run_reserve at_150 (bytes "5") (bytes "7") none open_state empty_events).1
    ≡ (run_reserve at_150 (bytes "5") (bytes "7") none open_state empty_events).0
unfolding reserve same_text hget digits is_generation is_stream_id
receipt-reserve_example =
    receipt-reserve at_150 (bytes "5") (bytes "7") none open_state empty_events ticket refl refl
      refl refl

compensate_once_example :
    ((h' : Hash) × (left' : ℕ) × ((run_compensate
          (bytes "7")
          ticket
          token
          sold_state
          (holds empty_events)).1.state
        ≡ holds h')
      × IsLedger left' 2 h'
      × (1 ≤ left')
      × (left' ≤ 1 + 1))
    × (compensate
          (bytes "7")
          ticket
          token
          (run_compensate (bytes "7") ticket token sold_state (holds empty_events)).1
        ≡ (1, (run_compensate (bytes "7") ticket token sold_state (holds empty_events)).1))
unfolding compensate same_text hget digits is_generation
compensate_once_example =
    compensate_once (bytes "7") ticket token sold_state (holds empty_events) 1 2 sold_state-IsLedger
      refl

decode-reserved_example : Promised at_150 none open_state empty_events 5 7
unfolding is_stream_id is_generation reserve same_text hget digits
decode-reserved_example =
    decode-reserved at_150 none open_state empty_events 5 7 (omega arith) (omega arith)
      (omega arith) ticket refl refl refl
