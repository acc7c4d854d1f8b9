-- ===== src/Community/Reading.antt =====
-- Reading a stream of notifications on from the last identifier (Messages of
-- internal/cache/community.go).
use local_life_go.Prelude.{
  ℕ, ◌<◌, ◌≡◌, refl, sym, ap, subst, ◌∙◌, true, false, Option, none, some, List, [], ◌∷◌, ◌++◌,
  Text, arith, ◌==◌, take, drop, select, All, all, is_digit, format_uint, digits-format_uint,
  digits-all, parse_uint-format_uint,
}
use local_life_go.Effects.{Result, ok, err, Reply, Reply-cases}
use local_life_go.Paging.Laws.{take-append}
use local_life_go.Community.Messages.{
  LikeMessage, Notice, Mailboxes, id_text, split_dash, start_of, is_later, message_of, content_of,
  and_messages, messages_of, stored_messages, messages, or_start,
}
use local_life_go.Community.Streams.{
  select-last, select-select, key_of, select-Ascending, select-satisfies, last_of-All, select-All,
  Ascending, last_of,
}

digit_first :
    (b : ℕ) (u : Text) → all is_digit (b ∷ u) ≡ true → ((b == 45) ≡ false) × (all is_digit u ≡ true)
digit_first b u h = (ground arith, ground arith)

-- An identifier reads back.
split_dash-digits : (u v : Text) → all is_digit u ≡ true → split_dash (u ++ (45 ∷ v)) ≡ some (u, v)
unfolding split_dash
split_dash-digits [] v h = refl
split_dash-digits (b ∷ u) v h =
    let (not_dash, more) = digit_first b u h in rw (not_dash, split_dash-digits u v more) refl

start_of-id_text :
    (time number : ℕ)
    → time < 18446744073709551616
    → number < 18446744073709551616
    → start_of (id_text time number) ≡ some (time, number)
unfolding start_of
start_of-id_text time number h k =
    rw
      (split_dash-digits (format_uint time) (format_uint number)
        (digits-all (format_uint time) time (digits-format_uint time)))
      (rw (parse_uint-format_uint time h, parse_uint-format_uint number k) refl)

or_start-append : (u v : Text) → or_start (u ++ (45 ∷ v)) ≡ u ++ (45 ∷ v)
or_start-append [] v = refl
or_start-append (b ∷ u) v = refl

abbrev pub IsBounded : Notice → Type 0
IsBounded e = (e.time < 18446744073709551616) × (e.number < 18446744073709551616)

-- The identifier to read on from.
abbrev pub last_id : Text → List LikeMessage → Text
last_id cursor [] = cursor
last_id cursor (item ∷ items) = last_id item.id items

ok_first : {xs : List LikeMessage} → ok [] ≡ ok xs → xs ≡ []
ok_first h = cc

and_messages_ok :
    (x : Result LikeMessage) (r : Result (List LikeMessage)) (items : List LikeMessage)
    → and_messages x r ≡ ok items
    → (item : LikeMessage) × (rest : List LikeMessage) × (x ≡ ok item)
      × (r ≡ ok rest)
      × (items ≡ item ∷ rest)
and_messages_ok (ok item) (ok rest) items h = (item, rest, refl, refl, cc)
and_messages_ok (ok item) (err e) items h = absurd (cc)
and_messages_ok (err e) r items h = absurd (cc)

module _ (unmarshal : Text → Option LikeMessage) where
  message_of-id :
      (entry : Notice) (o : Option LikeMessage) (item : LikeMessage)
      → message_of entry o ≡ ok item
      → item.id ≡ id_text entry.time entry.number
  message_of-id entry none item h = absurd (cc)
  message_of-id entry (some found) item h = ground arith

  last_id-messages_of :
      (cursor : Text) (y : Notice) (ys : List Notice) (items : List LikeMessage)
      → messages_of unmarshal (y ∷ ys) ≡ ok items
      → last_id cursor items ≡ id_text (last_of y ys).time (last_of y ys).number
  unfolding messages_of
  last_id-messages_of cursor y [] items h =
      let (item, rest, one, none_left, whole) =
        and_messages_ok (message_of y (content_of unmarshal y.content)) (ok []) items h in
      rw whole (rw (ok_first none_left) (message_of-id y (content_of unmarshal y.content) item one))
  last_id-messages_of cursor y (z ∷ zs) items h =
      let (item, rest, one, others, whole) =
        and_messages_ok (message_of y (content_of unmarshal y.content))
          (messages_of unmarshal (z ∷ zs)) items h in
      rw whole (last_id-messages_of item.id z zs rest others)

  messages_of-append :
      (xs ys : List Notice) (first second : List LikeMessage)
      → messages_of unmarshal xs ≡ ok first
      → messages_of unmarshal ys ≡ ok second
      → messages_of unmarshal (xs ++ ys) ≡ ok (first ++ second)
  unfolding messages_of
  messages_of-append [] ys first second h k = rw (ok_first h) k
  messages_of-append (x ∷ xs) ys first second h k =
      let (item, rest, one, others, whole) =
        and_messages_ok (message_of x (content_of unmarshal x.content)) (messages_of unmarshal xs)
          first h in
      rw (one, messages_of-append xs ys rest second others k, whole) refl

  messages_ok :
      (reply : Reply) (id : ℕ) (cursor : Text) (boxes : Mailboxes) (start : ℕ × ℕ)
      (items : List LikeMessage)
      → start_of (or_start cursor) ≡ some start
      → (messages (stored_messages unmarshal reply) id cursor boxes).0 ≡ ok items
      → messages_of unmarshal (take 50 (select (is_later start) (boxes id))) ≡ ok items
  unfolding messages stored_messages
  messages_ok reply id cursor boxes start items e h = ground (arith, Reply-cases reply, e)

  -- Where reading goes on.
  next_start :
      (cursor : Text) (start : ℕ × ℕ) (rows ys : List Notice) (first : List LikeMessage)
      → ys ≡ select (is_later start) rows
      → Ascending rows
      → All IsBounded rows
      → start_of (or_start cursor) ≡ some start
      → messages_of unmarshal (take 50 ys) ≡ ok first
      → (start' : ℕ × ℕ) × (start_of (or_start (last_id cursor first)) ≡ some start')
        × (select (is_later start') rows ≡ drop 50 ys)
  next_start cursor start rows [] first q asc bounded e h =
      let nothing : first ≡ [] = unfold messages_of in ok_first h in
      (start, ap (λ items. start_of (or_start (last_id cursor items))) nothing ∙ e, sym q)
  next_start cursor start rows (y ∷ zs) first q asc bounded e h =
      let l = last_of y (take 49 zs) in
      let kept =
        subst (All IsBounded) (sym q) (select-All IsBounded (is_later start) rows bounded) in
      let (low, high) = last_of-All IsBounded 49 y zs kept.0 kept.1 in
      let behind =
        subst (All (λ e. is_later start e ≡ true)) (sym q)
          (select-satisfies (is_later start) rows) in
      let later = last_of-All (λ e. is_later start e ≡ true) 49 y zs behind.0 behind.1 in
      let ordered = subst Ascending (sym q) (select-Ascending (is_later start) rows asc) in
      (
        key_of l,
        ap (λ t. start_of (or_start t)) (last_id-messages_of cursor y (take 49 zs) first h)
            ∙ ap start_of (or_start-append (format_uint l.time) (format_uint l.number))
            ∙ start_of-id_text l.time l.number low high,
        select-select start l rows later
            ∙ ap (select (is_later (key_of l))) (sym q)
            ∙ select-last 49 y zs ordered,
      )

  -- A client that reads on from the last message it was given misses none and gets none twice: two such
  -- reads that succeed give the first hundred messages after the start, in order. The server numbers
  -- the entries upwards, in 64 bits.
  pub messages_on :
      (reply reply' : Reply) (id : ℕ) (cursor : Text) (boxes : Mailboxes) (start : ℕ × ℕ)
      (first second : List LikeMessage)
      → Ascending (boxes id)
      → All IsBounded (boxes id)
      → start_of (or_start cursor) ≡ some start
      → (messages (stored_messages unmarshal reply) id cursor boxes).0 ≡ ok first
      → (messages (stored_messages unmarshal reply') id (last_id cursor first) boxes).0 ≡ ok second
      → messages_of unmarshal (take 100 (select (is_later start) (boxes id))) ≡ ok (first ++ second)
  messages_on reply reply' id cursor boxes start first second asc bounded e h k =
      let ys = select (is_later start) (boxes id) in
      let one = messages_ok reply id cursor boxes start first e h in
      let (start', read, left) =
        next_start cursor start (boxes id) ys first refl asc bounded e one in
      let two = messages_ok reply' id (last_id cursor first) boxes start' second read k in
      ap (messages_of unmarshal) (take-append 50 50 ys)
      ∙ messages_of-append (take 50 ys) (take 50 (drop 50 ys)) first second one
          (ap (λ rest. messages_of unmarshal (take 50 rest)) (sym left) ∙ two)
