-- ===== src/Seckill/Cache/Reserved.antt =====
-- What the consumer reads of an accepted reservation (internal/cache/lua/seckill_reserve.lua) is what the
-- user was promised (internal/cache/seckill.go and seckill_consumer.go).
use local_life_go.Prelude.{
  ℕ, ◌≡◌, refl, ap, subst, ◌∙◌, ◌<◌, ◌≤◌, true, Option, none, some, [], ◌∷◌, ◌++◌, map, Text, bytes,
  format_uint,
}
use local_life_go.Model.{SeckillEvent}
use local_life_go.Effects.{ok}
use local_life_go.Redis.{holds, Hash, Stream, Entry, hget}
use local_life_go.Seckill.{
  Server, Snapshot, snapshot, is_stream_id, lua_exact_integer, entry_fields, Keys,
}
use local_life_go.Seckill.Laws.{
  snapshot_bounds, is_accepted, run_reserve, Accepted, reserve-Accepted, snapshot-generation,
}
use local_life_go.Seckill.Cache.{decode_reply, str}
use local_life_go.Seckill.Cache.Messages.{decode_message, message_of, decode-entry_fields}

-- One event stands in the reply of the script and in the entry that it appended.
abbrev pub Promised : Server → Option Text → Hash → Stream → ℕ → ℕ → Type 0
Promised server expected h s voucher_id user_id =
    let (reply, keys) =
      run_reserve server (format_uint voucher_id) (format_uint user_id) expected h s in
    (event : SeckillEvent) × (entry : Entry) × (s' : Stream) × (event.voucher_id ≡ voucher_id)
    × (event.user_id ≡ user_id)
    × (event.accepted_at ≡ server.now_ms)
    × (hget (bytes "generation") h ≡ some event.generation)
    × (keys.events ≡ holds s')
    × (s'.entries ≡ s.entries ++ entry ∷ [])
    × (event.id ≡ entry.id)
    × (decode_reply (map str reply) voucher_id user_id ≡ ok event)
    × (decode_message voucher_id (message_of entry) ≡ ok event)

module _ (server : Server) (expected : Option Text) (h : Hash) (s : Stream) (voucher_id user_id : ℕ)
    (exact : server.now_ms ≤ lua_exact_integer) (known : 0 < user_id)
    (small : user_id < 18446744073709551616) where
  Promised-by :
      (found : Option Snapshot) (id : Text)
      → snapshot h ≡ found
      → is_stream_id id ≡ true
      → Accepted server (format_uint voucher_id) (format_uint user_id) expected h s found (some id)
      → Promised server expected h s voucher_id user_id
  Promised-by none id e i a = absurd a
  Promised-by (some snap) id e i (reply, after, _, _, _, _) =
      let (_, _, generation) = snapshot_bounds h snap e in
      let (promised, read) =
        decode-entry_fields id snap.generation server.now_ms voucher_id user_id i generation exact
          known small in
      (
        record {
          id = id;
          voucher_id = voucher_id;
          user_id = user_id;
          generation = snap.generation;
          accepted_at = server.now_ms;
        },
        record {
          id = id;
          fields =
              entry_fields (format_uint voucher_id) (format_uint user_id) snap.generation
                (format_uint server.now_ms);
        },
        _,
        refl,
        refl,
        refl,
        snapshot-generation h snap e,
        ap (λ (keys : Keys). keys.events) after,
        refl,
        refl,
        ap (λ words. decode_reply (map str words) voucher_id user_id) reply ∙ promised,
        read,
      )

  -- The reply of an accepted reservation and the stream entry that it appended decode to the same event,
  -- that of the user, the voucher and the generation of the activity at the server's time. The identifier
  -- that XADD gives is to be one of the stream, the time at most 2^53 - 1, and the user a positive number
  -- of 64 bits.
  pub decode-reserved :
      (id : Text)
      → server.added ≡ some id
      → is_stream_id id ≡ true
      → is_accepted
          (run_reserve server (format_uint voucher_id) (format_uint user_id) expected h s).0
        ≡ true
      → Promised server expected h s voucher_id user_id
  decode-reserved id added i a = Promised-by (snapshot h) id refl i (
      subst
        (Accepted server (format_uint voucher_id) (format_uint user_id) expected h s (snapshot h))
        added
        (reserve-Accepted server (format_uint voucher_id) (format_uint user_id) expected h s a))
