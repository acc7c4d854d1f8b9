-- ===== src/Seckill/Cache/Messages.antt =====
-- The deliveries of the consumer group (decodeSeckillMessages, Read and Claim of
-- internal/cache/seckill_consumer.go), and what comes back of an accepted reservation.
use local_life_go.Prelude.{
  parse_uint-format_uint, digits-format_uint, parse_int-digits, parse_uint, ℕ, ◌≤◌, ◌<◌, ◌≡◌, ◌≢◌,
  Bool, true, false, not, ◌||◌, Option, none, some, List, [], ◌∷◌, ◌++◌, map, arith, if◌then◌else◌,
  ◌==◌, length, Text, bytes, same_text, same_text_refl, format_uint,
}
use local_life_go.Effects.{Result, ok, err, Reply, done, failed, unacknowledged, Result-cases}
use local_life_go.AppError.{Kind, Fault}
use local_life_go.Model.{SeckillEvent}
use local_life_go.Redis.{Entry}
use local_life_go.Seckill.{entry_fields, is_stream_id, is_generation, lua_exact_integer}
use local_life_go.Seckill.Cache.{Value, str, not_str, decode_reply}

-- A stream message; a value is found by its name.
pub record Message : Type 0 where
  pub id : Text
  pub values : List (Text × Value)

abbrev pub value_of : Text → List (Text × Value) → Option Value
value_of name [] = none
value_of name ((field, v) ∷ values) = if same_text field name then some v else value_of name values

-- `v.(string)` of a value that may be missing; a missing one is no string.
abbrev pub or_not_str : Option Value → Value
or_not_str none = not_str
or_not_str (some v) = v

abbrev pub parsed_user : Option Value → Option ℕ
parsed_user (some (str s)) = parse_uint s
parsed_user _ = none

abbrev pub names_voucher : ℕ → Option Value → Bool
names_voucher voucher_id (some (str s)) = same_text s (format_uint voucher_id)
names_voucher voucher_id _ = false

decode_user : ℕ → Message → Option ℕ → Result SeckillEvent
unfolding decode_reply
decode_user voucher_id msg none = err Fault.other
decode_user voucher_id msg (some uid) =
    if uid == 0
      || not (names_voucher voucher_id (value_of (bytes "voucher_id") msg.values))
      || not (length msg.values == 4)
    then err Fault.other
    else decode_reply
        (str (bytes "accepted")
          ∷ str msg.id
          ∷ or_not_str (value_of (bytes "generation") msg.values)
          ∷ or_not_str (value_of (bytes "accepted_ms") msg.values)
          ∷ [])
        voucher_id uid

-- One round of the loop.
unfoldable pub decode_message : ℕ → Message → Result SeckillEvent
unfolding decode_user
decode_message voucher_id msg =
    decode_user voucher_id msg (parsed_user (value_of (bytes "user_id") msg.values))

abbrev pub keep : Result SeckillEvent → List SeckillEvent → List SeckillEvent
keep (ok event) events = event ∷ events
keep (err _) events = events

abbrev pub fault_of : Result SeckillEvent → Option Fault → Option Fault
fault_of (ok _) faults = faults
fault_of (err _) faults = some Fault.other

-- The events of the messages that are in order, and an error if some message is not.
unfoldable pub decode_messages : ℕ → List Message → List SeckillEvent × Option Fault
unfolding decode_message
decode_messages voucher_id [] = ([], none)
decode_messages voucher_id (msg ∷ messages) =
    let (events, faults) = decode_messages voucher_id messages in
    (keep (decode_message voucher_id msg) events, fault_of (decode_message voucher_id msg) faults)

-- XREADGROUP: the messages are new ones, or none (`redis.Nil`).
unfoldable pub read : Reply → ℕ → List Message → List SeckillEvent × Option Fault
unfolding decode_messages
read done voucher_id messages = decode_messages voucher_id messages
read (failed e) voucher_id messages = ([], some (Fault.wrap Kind.dependency e))
read (unacknowledged e) voucher_id messages = ([], some (Fault.wrap Kind.dependency e))

-- XAUTOCLAIM: on an error the cursor stays.
unfoldable pub claim :
    Reply → ℕ → Text → Text → List Message → List SeckillEvent × Text × Option Fault
unfolding decode_messages
claim done voucher_id start next messages =
    let (events, faults) = decode_messages voucher_id messages in (events, next, faults)
claim (failed e) voucher_id start next messages = ([], start, some (Fault.wrap Kind.dependency e))
claim (unacknowledged e) voucher_id start next messages =
    ([], start, some (Fault.wrap Kind.dependency e))

-- The message that an entry of the stream becomes.
abbrev pub message_of : Entry → Message
message_of entry = record {
  id = entry.id;
  values = map (λ (field : Text × Text). (field.0, str field.1)) entry.fields;
}

-- The words of an acceptance, as a reply and as the fields of an entry, decode to one event.
pub decode-entry_fields :
    (id generation : Text) (now voucher_id user_id : ℕ)
    → is_stream_id id ≡ true
    → is_generation generation ≡ true
    → now ≤ lua_exact_integer
    → 0 < user_id
    → user_id < 18446744073709551616
    → let event : SeckillEvent = record {
      id = id;
      voucher_id = voucher_id;
      user_id = user_id;
      generation = generation;
      accepted_at = now;
    } in
      (decode_reply
          (map str (bytes "accepted" ∷ id ∷ generation ∷ format_uint now ∷ []))
          voucher_id
          user_id
        ≡ ok event)
      × (decode_message voucher_id (
            message_of (record {
              id = id;
              fields =
                  entry_fields
                    (format_uint voucher_id)
                    (format_uint user_id)
                    generation
                    (format_uint now);
            }))
          ≡ ok event)
unfolding decode_reply decode_message same_text
decode-entry_fields id generation now voucher_id user_id i g n u w =
    let stamp = parse_int-digits (format_uint now) now (digits-format_uint now) (omega arith) in
    (
      ground (arith, i, g, stamp, u, w),
      ground (
        arith,
        i,
        g,
        stamp,
        parse_uint-format_uint user_id w,
        same_text_refl (format_uint voucher_id),
      ),
    )

-- A malformed message stops no other: the events are those of the messages in order, wherever the
-- malformed ones stand, and an error is reported with them.
pub decode_messages-append :
    (voucher_id : ℕ) (before after : List Message) (msg : Message) (e : Fault)
    → decode_message voucher_id msg ≡ err e
    → ((decode_messages voucher_id (before ++ msg ∷ after)).0
        ≡ (decode_messages voucher_id before).0 ++ (decode_messages voucher_id after).0)
      × ((decode_messages voucher_id (before ++ msg ∷ after)).1 ≢ none)
unfolding decode_messages
decode_messages-append voucher_id [] after msg e bad = ground (arith, bad)
decode_messages-append voucher_id (first ∷ rest) after msg e bad =
    let (events, faults) = decode_messages-append voucher_id rest after msg e bad in
    (
      ground (arith, events, Result-cases (decode_message voucher_id first)),
      ground (arith, faults, Result-cases (decode_message voucher_id first)),
    )
