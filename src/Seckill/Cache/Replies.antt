-- ===== src/Seckill/Cache/Replies.antt =====
-- What an answer without an error says of the script that gave it.
use local_life_go.Prelude.{
  ℕ, ◌≡◌, ◌≢◌, true, some, List, [], ◌∷◌, map, arith, Bool-cases, Option-cases, Text, bytes,
  same_text, format_uint,
}
use local_life_go.Effects.{ok, Reply, Reply-cases}
use local_life_go.Model.{SeckillEvent}
use local_life_go.Seckill.{Server, reserve}
use local_life_go.Seckill.Laws.{is_accepted}
use local_life_go.Seckill.Cache.{
  Value, str, decode_reply, decode_refusal, refusal_kind, reserve_for_generation, Redis,
}

decode_refusal-never_ok :
    (code : Text) (values : List Value) (event : SeckillEvent)
    → decode_refusal code values ≢ ok event
unfolding decode_refusal
decode_refusal-never_ok code [] event h = ground (arith, h, Option-cases (refusal_kind code))
decode_refusal-never_ok code (v ∷ values) event h = ground (arith, h)

decode_reply-is_accepted :
    (values : List Text) (voucher_id user_id : ℕ) (event : SeckillEvent)
    → decode_reply (map str values) voucher_id user_id ≡ ok event
    → is_accepted values ≡ true
unfolding decode_reply
decode_reply-is_accepted [] voucher_id user_id event h = ground (arith, h)
decode_reply-is_accepted (code ∷ values) voucher_id user_id event h = ground (
  arith,
  h,
  decode_refusal-never_ok code (map str values) event,
  Bool-cases (same_text code (bytes "accepted")),
)

-- A reservation that returns an event was accepted by the script, and was answered.
pub reserve_for_generation-is_accepted :
    (reply : Reply) (server : Server) (voucher_id user_id : ℕ) (generation : Text) (redis : Redis)
    (event : SeckillEvent)
    → (reserve_for_generation reply server voucher_id user_id generation redis).0 ≡ ok event
    → is_accepted
        (reserve server
          (format_uint voucher_id)
          (format_uint user_id)
          (some generation)
          (redis voucher_id)).0
      ≡ true
unfolding reserve_for_generation
reserve_for_generation-is_accepted reply server voucher_id user_id generation redis event h =
    ground (
      arith,
      h,
      Reply-cases reply,
      decode_reply-is_accepted
          (reserve server (format_uint voucher_id) (format_uint user_id) (some generation)
            (redis voucher_id)).0
          voucher_id user_id event,
    )
