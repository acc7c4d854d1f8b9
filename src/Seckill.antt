-- ===== src/Seckill.antt =====
-- Admission to a seckill activity: the Lua scripts of internal/cache/lua, each one atomic step on
-- the two keys of an activity. What the server decides (its clock, the identifier of a new entry,
-- permissions, a write that it refuses) is an argument.
pub mod Laws
pub mod Tickets
pub mod Recovery
pub mod Cache
use local_life_go.Prelude.{
  all, leb, is_some, ◌||◌, digits, not, same_text, ◌&&◌, ◌-◌, ◌==◌, is_digit, ltb, [], none, ◌∷◌,
  if◌then◌else◌, any, ◌++◌, true, format_uint, false, some, bytes, length, List, Bool, Option, Text,
  ℕ,
}
use local_life_go.Redis.{Key, absent, other_type, holds, Hash, Stream, Entry, hget, hset}

-- The state hash and the event stream.
pub record Keys : Type 0 where
  pub state : Key Hash
  pub events : Key Stream

-- The largest integer that a Lua number holds exactly.
abbrev pub lua_exact_integer : ℕ
lua_exact_integer = 9007199254740991

-- The server's part in one run of a script.
pub record Server : Type 0 where
  pub now_ms : ℕ
  pub allowed : Bool
  pub added : Option Text
  pub stored : Bool

only_digits : Text → Bool
only_digits [] = true
only_digits (c ∷ cs) = is_digit c && only_digits cs

after_dash : Text → Bool
unfolding only_digits
after_dash [] = false
after_dash (c ∷ cs) = is_digit c && only_digits cs

after_digit : Text → Bool
unfolding after_dash
after_digit [] = false
after_digit (c ∷ cs) =
    let more = after_digit cs in if c == b'-' then after_dash cs else is_digit c && more

-- `^[0-9]+-[0-9]+$`
unfoldable pub is_stream_id : Text → Bool
unfolding after_digit
is_stream_id [] = false
is_stream_id (c ∷ cs) = is_digit c && after_digit cs

-- `^[0-9a-f]{32}$`
unfoldable pub is_generation : Text → Bool
is_generation s = length s == 32 && all (λ c. is_digit c || (leb b'a' c && leb c b'f')) s

-- `integer` of seckill_reserve.lua
abbrev pub exact : Option ℕ → Option ℕ
exact none = none
exact (some n) = if ltb lua_exact_integer n then none else some n

abbrev pub parsed : Option Text → Option ℕ
parsed none = none
parsed (some s) = digits s

abbrev pub integer : Option Text → Option ℕ
integer raw = exact (parsed raw)

abbrev pub is_text : Text → Option Text → Bool
is_text s none = false
is_text s (some t) = same_text t s

abbrev pub buyer_field : Text → Text
buyer_field user = bytes "buyer:" ++ user

abbrev pub compensated_field : Text → Text
compensated_field id = bytes "compensated:" ++ id

abbrev pub has_group : Stream → Bool
has_group s = any (λ g. same_text g (bytes "orders")) s.groups

abbrev pub dependency_failure : List Text
dependency_failure = bytes "dependency_failure" ∷ []

-- What the script knows of an activity whose hash is in order.
pub record Snapshot : Type 0 where
  pub generation : Text
  pub stock : ℕ
  pub capacity : ℕ
  pub begin_ms : ℕ
  pub end_ms : ℕ

infixl 5 ◌>>=◌
abbrev pub ◌>>=◌ : {A B : Type 0} → Option A → (A → Option B) → Option B
none >>= f = none
some a >>= f = f a

unfoldable pub snapshot : Hash → Option Snapshot
snapshot h = do
  generation ← hget (bytes "generation") h
  stock ← integer (hget (bytes "stock") h)
  capacity ← integer (hget (bytes "capacity") h)
  begin_ms ← integer (hget (bytes "begin_ms") h)
  end_ms ← integer (hget (bytes "end_ms") h)
  if is_text (bytes "1") (hget (bytes "version") h)
        && is_generation generation
        && leb stock capacity
        && ltb begin_ms end_ms
      then some (record {
        generation = generation;
        stock = stock;
        capacity = capacity;
        begin_ms = begin_ms;
        end_ms = end_ms;
      })
      else none

pub data Admission : Type 0 where
  refused : Text → Admission
  admitted : Snapshot → Admission

-- The checks that follow the snapshot.
unfoldable pub admit : Server → Text → Hash → Snapshot → Admission
admit server user h snap =
    if ltb server.now_ms snap.begin_ms
    then refused (bytes "activity_not_started")
    else if leb snap.end_ms server.now_ms
    then refused (bytes "activity_ended")
    else if is_some (hget (buyer_field user) h)
    then refused (bytes "already_purchased")
    else if snap.stock == 0
    then refused (bytes "sold_out")
    else if server.allowed
    then admitted snap
    else refused (bytes "dependency_failure")

abbrev pub differs : Option Text → Option Text → Bool
differs none stored = false
differs (some expected) stored = not (is_text expected stored)

unfoldable pub admission : Server → Text → Option Text → Hash → Stream → Admission
unfolding admit snapshot
admission server user expected h s =
    if differs expected (hget (bytes "generation") h) || (is_some expected && not (has_group s))
    then refused (bytes "dependency_failure")
    else elim (snapshot h) [
      | none ↦ refused (bytes "dependency_failure")
      | some snap ↦ admit server user h snap
    ]

abbrev pub entry_fields : Text → Text → Text → Text → Hash
entry_fields voucher user generation stamp =
    (bytes "voucher_id", voucher)
    ∷ (bytes "user_id", user)
    ∷ (bytes "generation", generation)
    ∷ (bytes "accepted_ms", stamp)
    ∷ []

-- The hash after an admission.
abbrev pub bought : Text → Text → Snapshot → Hash → Hash
bought user id snap h =
    hset (buyer_field user) id (hset (bytes "stock") (format_uint (snap.stock - 1)) h)

abbrev pub enqueue : Text → Hash → Stream → Stream
enqueue id fields s = record s { entries = s.entries ++ record { id = id; fields = fields } ∷ [] }

-- XADD and then HSET; a refused HSET takes the entry back.
unfoldable pub commit : Server → Text → Text → Snapshot → Hash → Stream → List Text × Keys
commit server voucher user snap h s =
    let stamp = format_uint server.now_ms in
    elim server.added [
      | none ↦ (dependency_failure, record { state = holds h; events = holds s })
      | some id ↦
          if server.stored
          then (
            bytes "accepted" ∷ id ∷ snap.generation ∷ stamp ∷ [],
            record {
              state = holds (bought user id snap h);
              events = holds (enqueue id (entry_fields voucher user snap.generation stamp) s);
            },
          )
          else (dependency_failure, record { state = holds h; events = holds s })
    ]

reserve_in : Server → Text → Text → Option Text → Key Hash → Key Stream → List Text × Keys
unfolding admission commit
reserve_in server voucher user expected (holds h) (holds s) =
    elim (admission server user expected h s) [
      | refused code ↦ (code ∷ [], record { state = holds h; events = holds s })
      | admitted snap ↦ commit server voucher user snap h s
    ]
reserve_in server voucher user expected state events =
    (dependency_failure, record { state = state; events = events })

-- seckill_reserve.lua; the third argument of the script is optional.
unfoldable pub reserve : Server → Text → Text → Option Text → Keys → List Text × Keys
unfolding reserve_in
reserve server voucher user expected keys =
    reserve_in server voucher user expected keys.state keys.events
