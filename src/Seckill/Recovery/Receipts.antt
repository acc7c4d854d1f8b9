-- ===== src/Seckill/Recovery/Receipts.antt =====
-- Receipts.
use local_life_go.Prelude.{
  ◌-◌, ◌≡◌, refl, ◌∙◌, Bool, true, Option, none, some, List, [], ◌∷◌, ◌++◌, arith, select, Text,
  bytes, same_text, same_text_refl, format_uint,
}
use local_life_go.Redis.{holds, Hash, Stream, Entry, hget, hset}
use local_life_go.Redis.Laws.{hget-hset_self, hget-hset_ne}
use local_life_go.Seckill.{
  enqueue, snapshot, entry_fields, bought, buyer_field, Snapshot, is_stream_id, Server,
}
use local_life_go.Seckill.Recovery.{receipt_in, receipt_of, receipt}
use local_life_go.Seckill.Laws.{
  snapshot-generation, reserve-Accepted, Accepted, run_reserve, is_accepted,
}

select-append_last :
    (p : Entry → Bool) (entries : List Entry) (entry : Entry)
    → select p entries ≡ []
    → p entry ≡ true
    → select p (entries ++ entry ∷ []) ≡ entry ∷ []
select-append_last p [] entry n t = ground arith
select-append_last p (x ∷ entries) entry n t = ground (arith, select-append_last p entries entry)

-- The hash after an admission, field by field.
module _ (user id : Text) (snap : Snapshot) (h : Hash) where
  bought-buyer : hget (buyer_field user) (bought user id snap h) ≡ some id
  bought-buyer =
      hget-hset_self (buyer_field user) id (hset (bytes "stock") (format_uint (snap.stock - 1)) h)

  bought-generation :
      hget (bytes "generation") (bought user id snap h) ≡ hget (bytes "generation") h
  unfolding same_text
  bought-generation =
      hget-hset_ne (bytes "generation") (buyer_field user) id
        (hset (bytes "stock") (format_uint (snap.stock - 1)) h) refl
      ∙ hget-hset_ne (bytes "generation") (bytes "stock") (format_uint (snap.stock - 1)) h refl

receipt_of_entry :
    (voucher user id generation stamp : Text) (h : Hash)
    → hget (bytes "generation") h ≡ some generation
    → receipt_of voucher user id h
        (record { id = id; fields = entry_fields voucher user generation stamp } ∷ [])
      ≡ bytes "accepted" ∷ id ∷ generation ∷ stamp ∷ []
unfolding receipt_of hget same_text
receipt_of_entry voucher user id generation stamp h e =
    rw (same_text_refl voucher, same_text_refl user, e, same_text_refl generation)

receipt_bought :
    (voucher user id stamp : Text) (snap : Snapshot) (h : Hash) (s : Stream)
    → hget (bytes "generation") h ≡ some snap.generation
    → is_stream_id id ≡ true
    → select (λ entry. same_text entry.id id) s.entries ≡ []
    → receipt voucher user (record {
      state = holds (bought user id snap h);
      events = holds (enqueue id (entry_fields voucher user snap.generation stamp) s);
    })
      ≡ bytes "accepted" ∷ id ∷ snap.generation ∷ stamp ∷ []
unfolding receipt
receipt_bought voucher user id stamp snap h s e valid unused =
    rw
      (
        bought-buyer user id snap h,
        receipt,
        receipt_in,
        valid,
        select-append_last (λ entry. same_text entry.id id) s.entries
            (record { id = id; fields = entry_fields voucher user snap.generation stamp }) unused
            (same_text_refl id),
      )
      (receipt_of_entry voucher user id snap.generation stamp (bought user id snap h)
        (bought-generation user id snap h ∙ e))

module _ (server : Server) (voucher user : Text) (expected : Option Text) (h : Hash) (s : Stream)
    (added : Text) (assigned : server.added ≡ some added) (valid : is_stream_id added ≡ true)
    (unused : select (λ entry. same_text entry.id added) s.entries ≡ []) where
  receipt_by :
      (found : Option Snapshot) (ticket : Option Text)
      → snapshot h ≡ found
      → ticket ≡ some added
      → Accepted server voucher user expected h s found ticket
      → receipt voucher user (run_reserve server voucher user expected h s).1
        ≡ (run_reserve server voucher user expected h s).0
  receipt_by none ticket e t a = absurd a
  receipt_by (some snap) none e t a = absurd a
  receipt_by (some snap) (some id) e t (reply, after, _, _, _, _) =
      let same : id ≡ added = cc in
      rw (reply, after)
        (receipt_bought voucher user id (format_uint server.now_ms) snap h s
          (snapshot-generation h snap e) (rw same valid) (rw same unused))

  -- A lost reply is recovered: as long as the stream's new identifier was not in use, the receipt of
  -- an accepted reservation is the reply of the reservation, word for word.
  pub receipt-reserve :
      is_accepted (run_reserve server voucher user expected h s).0 ≡ true
      → receipt voucher user (run_reserve server voucher user expected h s).1
        ≡ (run_reserve server voucher user expected h s).0
  receipt-reserve a =
      receipt_by (snapshot h) server.added refl assigned
        (reserve-Accepted server voucher user expected h s a)
