-- ===== src/Seckill/Cache.antt =====
-- The seckill cache (internal/cache/seckill.go and seckill_consumer.go): the Go side of the scripts
-- and of the consumer group. A stream identifier, the messages that a group read hands over and the
-- fate of each request are the server's and stand as arguments.
pub mod Messages
pub mod Reserved
pub mod Replies
use local_life_go.Prelude.{
  pos, negsuc, ltb_ℤ, parse_int, is_negative, ℤ, pos_part, ℕ, suc, ◌+◌, ◌-◌, ◌*◌, ◌≤◌, ◌<◌, ◌≡◌,
  ◌≢◌, refl, sym, ap, subst, ◌∙◌, ◌⊎◌, inl, inr, Bool, true, false, not, ◌&&◌, ◌||◌, Option, none,
  some, List, [], ◌∷◌, ◌++◌, map, arith, if◌then◌else◌, ltb, leb, ◌==◌, Bool-cases, Option-cases,
  is_some, length, take, drop, select, count, find, any, all, All, sort_by, Text, bytes, same_text,
  same_text_refl, same_text_sound, digits, format_uint, is_digit,
}
use local_life_go.Effects.{
  Result, ok, err, M, pure, raise, fail_if, attempt, from_result, map_error, map_result, ◌>>=◌,
  ◌>>◌, Reply, done, failed, unacknowledged, answer, written, query, send, first_row, is_ok,
  is_unacknowledged, Result-cases, Reply-cases, check_context, wrap_error,
}
use local_life_go.AppError.{Kind, Fault, classified, describe, kind_text}
use local_life_go.Model.{SeckillSeed, SeckillEvent}
use local_life_go.Redis.{Key, absent, other_type, holds, Stream}
use local_life_go.Seckill.{Keys, Server, is_stream_id, is_generation, reserve, lua_exact_integer}
use local_life_go.Seckill.Recovery.{prepare, check, compensate, receipt}

-- The keys of each activity.
abbrev pub Redis : Type 0
Redis = ℕ → Keys

abbrev pub put : ℕ → Keys → Redis → Redis
put id keys redis = λ other. if other == id then keys else redis other

-- A value of a reply: a string or something else.
pub data Value : Type 0 where
  str : Text → Value
  not_str : Value

abbrev invalid_reply : Result SeckillEvent
invalid_reply = err (Fault.wrap Kind.dependency Fault.other)

-- The kinds that a refusal may name.
refusal_kind : Text → Option Kind
unfolding kind_text
refusal_kind code =
    if same_text code (kind_text Kind.activity_not_started)
    then some Kind.activity_not_started
    else if same_text code (kind_text Kind.activity_ended)
    then some Kind.activity_ended
    else if same_text code (kind_text Kind.sold_out)
    then some Kind.sold_out
    else if same_text code (kind_text Kind.already_purchased)
    then some Kind.already_purchased
    else if same_text code (kind_text Kind.not_found)
    then some Kind.not_found
    else none

decode_refusal : Text → List Value → Result SeckillEvent
unfolding refusal_kind
decode_refusal code [] = elim (refusal_kind code) [
  | none ↦ invalid_reply
  | some k ↦ err (Fault.new k)
]
decode_refusal code (_ ∷ _) = invalid_reply

-- A time stamp within the range that Lua holds exactly.
abbrev valid_stamp : Option ℤ → Option ℕ
valid_stamp none = none
valid_stamp (some (negsuc _)) = none
valid_stamp (some (pos ms)) = if ltb lua_exact_integer ms then none else some ms

abbrev event_at : Text → Text → ℕ → ℕ → Option ℕ → Result SeckillEvent
event_at id generation voucher_id user_id none = invalid_reply
event_at id generation voucher_id user_id (some ms) = ok (record {
  id = id;
  voucher_id = voucher_id;
  user_id = user_id;
  generation = generation;
  accepted_at = ms;
})

decode_accepted : List Value → ℕ → ℕ → Result SeckillEvent
decode_accepted (str id ∷ str generation ∷ str stamp ∷ []) voucher_id user_id =
    if is_stream_id id && is_generation generation
    then event_at id generation voucher_id user_id (valid_stamp (parse_int stamp))
    else invalid_reply
decode_accepted _ voucher_id user_id = invalid_reply

unfoldable pub decode_reply : List Value → ℕ → ℕ → Result SeckillEvent
unfolding decode_refusal decode_accepted
decode_reply (str code ∷ values) voucher_id user_id =
    if same_text code (bytes "accepted")
    then decode_accepted values voucher_id user_id
    else decode_refusal code values
decode_reply _ voucher_id user_id = invalid_reply

-- One run of a script on the keys of an activity.
abbrev run_script : {A : Type 0} → Reply → ℕ → (Keys → A × Keys) → M Redis A
run_script reply id script =
    map_error (Fault.wrap Kind.dependency)
      (send reply (λ redis. let (a, keys) = script (redis id) in (ok a, put id keys redis)))

module _ (reply : Reply) (server : Server) where
  unfoldable pub reserve_for_generation : ℕ → ℕ → Text → M Redis SeckillEvent
  unfolding decode_reply
  reserve_for_generation voucher_id user_id generation = do
    fail_if (voucher_id == 0 || user_id == 0 || not (is_generation generation))
        (Fault.new Kind.validation)
    values ←
        run_script reply voucher_id
          (reserve server (format_uint voucher_id) (format_uint user_id) (some generation))
    from_result (decode_reply (map str values) voucher_id user_id)

  -- Reserve, without a generation to compare.
  unfoldable pub reserve_any : ℕ → ℕ → M Redis SeckillEvent
  unfolding decode_reply
  reserve_any voucher_id user_id = do
    fail_if (voucher_id == 0 || user_id == 0) (Fault.new Kind.validation)
    values ←
        run_script reply voucher_id
          (reserve server (format_uint voucher_id) (format_uint user_id) none)
    from_result (decode_reply (map str values) voucher_id user_id)

  prepare_code : Text → Result (Unit {0})
  prepare_code code =
      if same_text code (bytes "ok")
      then ok tt
      else if same_text code (bytes "conflict")
      then err (Fault.new Kind.conflict)
      else err (Fault.new Kind.dependency)

  unfoldable pub prepare_activity : SeckillSeed → M Redis (Unit {0})
  unfolding prepare_code
  prepare_activity seed = do
    fail_if
        (seed.voucher_id == 0
          || not (is_generation seed.generation)
          || is_negative seed.stock
          || ltb_ℤ (pos lua_exact_integer) seed.stock
          || is_negative seed.begin_time
          || not (ltb_ℤ seed.begin_time seed.end_time)
          || ltb_ℤ (pos lua_exact_integer) seed.end_time)
        (Fault.new Kind.validation)
    code ← run_script reply seed.voucher_id (
        prepare server seed.generation (format_uint (pos_part seed.stock))
          (format_uint (pos_part seed.begin_time)) (format_uint (pos_part seed.end_time)))
    from_result (prepare_code code)

module _ (reply : Reply) where
  unfoldable pub receipt_for : ℕ → ℕ → M Redis SeckillEvent
  unfolding decode_reply
  receipt_for voucher_id user_id = do
    fail_if (voucher_id == 0 || user_id == 0) (Fault.new Kind.validation)
    values ←
        run_script reply voucher_id
          (λ keys. (receipt (format_uint voucher_id) (format_uint user_id) keys, keys))
    from_result (decode_reply (map str values) voucher_id user_id)

  -- The seed comes from the tables, so its numbers are not negative.
  unfoldable pub check_activity : SeckillSeed → Bool → M Redis (Unit {0})
  check_activity seed pristine = do
    n ← run_script reply seed.voucher_id (λ keys. (
      check seed.generation (pos_part seed.stock) (format_uint (pos_part seed.begin_time))
          (format_uint (pos_part seed.end_time)) pristine keys,
      keys,
    ))
    fail_if (not (n == 1)) (Fault.new Kind.dependency)

  unfoldable pub compensate_event : SeckillEvent → M Redis (Unit {0})
  compensate_event event = do
    n ←
        run_script reply event.voucher_id
          (compensate (format_uint event.user_id) event.id event.generation)
    fail_if (not (n == 1)) (Fault.new Kind.dependency)

  abbrev pub forget : Text → List Text → List Text
  forget id ids = select (λ other. not (same_text other id)) ids

  abbrev pub acknowledged : Text → Key Stream → Key Stream
  acknowledged id (holds s) = holds (record s { pending = forget id s.pending })
  acknowledged id other_type = other_type
  acknowledged id absent = absent

  -- XACK
  unfoldable pub ack : SeckillEvent → M Redis (Unit {0})
  ack event =
      run_script reply event.voucher_id
        (λ keys. (tt, record keys { events = acknowledged event.id keys.events }))
