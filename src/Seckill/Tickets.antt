-- ===== src/Seckill/Tickets.antt =====
-- A ticket under any history of the scripts (internal/cache/lua/seckill_*.lua): once a user has one, he is
-- never admitted again.
use local_life_go.Prelude.{
  ℕ, ◌≡◌, refl, sym, subst, inl, inr, Bool, true, false, Option, none, some, Text, bytes,
  if◌then◌else◌, is_some, same_text, same_text_sound, ◌-◌, ◌+◌, format_uint, Bool-cases,
}
use local_life_go.Redis.{Key, absent, other_type, holds, Hash, Stream, hget, hset}
use local_life_go.Redis.Laws.{hget-hset_self, hget-hset_ne}
use local_life_go.Seckill.{
  Server, Keys, reserve, reserve_in, parsed, snapshot, buyer_field, compensated_field, Snapshot,
}
use local_life_go.Seckill.Recovery.{prepare, compensate, returned}
use local_life_go.Seckill.Laws.{
  reserve-Accepted, refused_again, Accepted, IsLedger, is_accepted, run_reserve, reserve_admits,
  reserve_unchanged,
}

-- What the program does to the keys of one activity: the three scripts that write, and the commands on
-- the stream (reads, claims and acknowledgements), after which it may be any.
pub data Step : Keys → Keys → Type 0 where
  reserved :
      (server : Server) (voucher user : Text) (expected : Option Text) (keys : Keys)
      → Step keys (reserve server voucher user expected keys).1
  prepared :
      (server : Server) (generation stock begin_ms end_ms : Text) (keys : Keys)
      → Step keys (prepare server generation stock begin_ms end_ms keys).1
  compensated :
      (user id generation : Text) (keys : Keys) → Step keys (compensate user id generation keys).1
  consumed : (keys : Keys) (events : Key Stream) → Step keys (record keys { events = events })

pub data History (start : Keys) : Keys → Type 0 where
  here : History start start
  later : {keys keys' : Keys} → History start keys → Step keys keys' → History start keys'

abbrev HasTicket : Text → Key Hash → Type 0
HasTicket user (holds h) = is_some (hget (buyer_field user) h) ≡ true
HasTicket user absent = ⊥
HasTicket user other_type = ⊥

-- No field of a hash goes away.
hset-keeps :
    (name other v : Text) (h : Hash)
    → is_some (hget name h) ≡ true
    → is_some (hget name (hset other v h)) ≡ true
hset-keeps name other v h there = elim (Bool-cases (same_text other name)) [
  | inl same ↦ rw (same_text_sound other name same, hget-hset_self name v h) refl
  | inr ne ↦ rw (hget-hset_ne name other v h ne) there
]

-- What an admission leaves of another ticket, or of the same one.
bought-HasTicket :
    (server : Server) (voucher buyer user : Text) (expected : Option Text) (h : Hash) (s : Stream)
    (found : Option Snapshot) (added : Option Text)
    → Accepted server voucher buyer expected h s found added
    → HasTicket user (holds h)
    → HasTicket user (run_reserve server voucher buyer expected h s).1.state
bought-HasTicket server voucher buyer user expected h s none added a there = absurd a
bought-HasTicket server voucher buyer user expected h s (some snap) none a there = absurd a
bought-HasTicket server voucher buyer user expected h s (some snap) (some id) (_, after, _, _, _, _)
      there =
    subst (λ (keys : Keys). HasTicket user keys.state) (sym after)
      (hset-keeps (buyer_field user) (buyer_field buyer) id
        (hset (bytes "stock") (format_uint (snap.stock - 1)) h)
        (hset-keeps (buyer_field user) (bytes "stock") (format_uint (snap.stock - 1)) h there))

accepted-HasTicket :
    (server : Server) (voucher buyer user : Text) (expected : Option Text) (state : Key Hash)
    (events : Key Stream)
    → is_accepted
        (reserve server voucher buyer expected (record { state = state; events = events })).0
      ≡ true
    → HasTicket user state
    → HasTicket user
        (reserve server voucher buyer expected (record { state = state; events = events })).1.state
unfolding reserve reserve_in
accepted-HasTicket server voucher buyer user expected (holds h) (holds s) a there =
    bought-HasTicket server voucher buyer user expected h s (snapshot h) server.added
      (reserve-Accepted server voucher buyer expected h s a) there
accepted-HasTicket server voucher buyer user expected (holds h) absent a there = there
accepted-HasTicket server voucher buyer user expected (holds h) other_type a there = there
accepted-HasTicket server voucher buyer user expected absent events a there = absurd there
accepted-HasTicket server voucher buyer user expected other_type events a there = absurd there

prepare-HasTicket :
    (server : Server) (generation stock begin_ms end_ms user : Text) (state : Key Hash)
    (events : Key Stream)
    → HasTicket user state
    → HasTicket user
        (prepare server generation stock begin_ms end_ms
          (record { state = state; events = events })).1.state
unfolding prepare
prepare-HasTicket server generation stock begin_ms end_ms user (holds h) events there = there
prepare-HasTicket server generation stock begin_ms end_ms user absent events there = absurd there
prepare-HasTicket server generation stock begin_ms end_ms user other_type events there =
    absurd there

returned-HasTicket :
    (id user : Text) (stock : Option ℕ) (h : Hash)
    → HasTicket user (holds h)
    → HasTicket user (holds (returned id stock h))
returned-HasTicket id user none h there = there
returned-HasTicket id user (some stock) h there =
    hset-keeps (buyer_field user) (compensated_field id) (bytes "1")
      (hset (bytes "stock") (format_uint (stock + 1)) h)
      (hset-keeps (buyer_field user) (bytes "stock") (format_uint (stock + 1)) h there)

if-HasTicket :
    (user : Text) (test : Bool) (a b : Hash)
    → HasTicket user (holds a)
    → HasTicket user (holds b)
    → HasTicket user (holds (if test then a else b))
if-HasTicket user true a b h k = h
if-HasTicket user false a b h k = k

compensate-HasTicket :
    (buyer id generation user : Text) (state : Key Hash) (events : Key Stream)
    → HasTicket user state
    → HasTicket user
        (compensate buyer id generation (record { state = state; events = events })).1.state
unfolding compensate
compensate-HasTicket buyer id generation user (holds h) events there =
    if-HasTicket user _ (returned id (parsed (hget (bytes "stock") h)) h) h
      (returned-HasTicket id user (parsed (hget (bytes "stock") h)) h there) there
compensate-HasTicket buyer id generation user absent events there = absurd there
compensate-HasTicket buyer id generation user other_type events there = absurd there

reserve-HasTicket :
    (server : Server) (voucher buyer user : Text) (expected : Option Text) (keys : Keys)
    → HasTicket user keys.state
    → HasTicket user (reserve server voucher buyer expected keys).1.state
reserve-HasTicket server voucher buyer user expected keys there =
    elim (Bool-cases (is_accepted (reserve server voucher buyer expected keys).0)) [
      | inl a ↦ accepted-HasTicket server voucher buyer user expected keys.state keys.events a there
      | inr n ↦ rw (reserve_unchanged server voucher buyer expected keys n) there
    ]

Step-HasTicket :
    (user : Text) {keys keys' : Keys}
    → Step keys keys'
    → HasTicket user keys.state
    → HasTicket user keys'.state
Step-HasTicket user (reserved server voucher buyer expected keys) there =
    reserve-HasTicket server voucher buyer user expected keys there
Step-HasTicket user (prepared server generation stock begin_ms end_ms keys) there =
    prepare-HasTicket server generation stock begin_ms end_ms user keys.state keys.events there
Step-HasTicket user (compensated buyer id generation keys) there =
    compensate-HasTicket buyer id generation user keys.state keys.events there
Step-HasTicket user (consumed keys events) there = there

History-HasTicket :
    (user : Text) {start keys : Keys}
    → History start keys
    → HasTicket user start.state
    → HasTicket user keys.state
History-HasTicket user here there = there
History-HasTicket user (later past st) there =
    Step-HasTicket user st (History-HasTicket user past there)

refused-HasTicket :
    (server : Server) (voucher user : Text) (expected : Option Text) (state : Key Hash)
    (events : Key Stream)
    → HasTicket user state
    → is_accepted
        (reserve server voucher user expected (record { state = state; events = events })).0
      ≡ false
unfolding reserve reserve_in same_text
refused-HasTicket server voucher user expected (holds h) (holds s) there =
    refused_again server voucher user expected h s there
refused-HasTicket server voucher user expected (holds h) absent there = refl
refused-HasTicket server voucher user expected (holds h) other_type there = refl
refused-HasTicket server voucher user expected absent events there = absurd there
refused-HasTicket server voucher user expected other_type events there = absurd there

-- Tickets are unique: once a reservation of a user was accepted, no later one of his for the activity
-- is, whatever reservations, preparations, compensations and commands on the stream lie between, and
-- whatever the server's clock and answers are; and the refused attempt changes nothing.
pub one_ticket :
    (server server' : Server) (voucher user : Text) (expected expected' : Option Text) (h : Hash)
    (s : Stream) (left capacity : ℕ) (keys : Keys)
    → IsLedger left capacity h
    → is_accepted (run_reserve server voucher user expected h s).0 ≡ true
    → History (run_reserve server voucher user expected h s).1 keys
    → (is_accepted (reserve server' voucher user expected' keys).0 ≡ false)
      × ((reserve server' voucher user expected' keys).1 ≡ keys)
one_ticket server server' voucher user expected expected' h s left capacity keys l a past =
    let (h', s', after, _, _, _, ticket, _) =
      reserve_admits server voucher user expected h s left capacity l a in
    let there = subst (λ (k : Keys). HasTicket user k.state) (sym after) ticket in
    let refused =
      refused-HasTicket server' voucher user expected' keys.state keys.events
        (History-HasTicket user past there) in
    (refused, reserve_unchanged server' voucher user expected' keys refused)
