-- ===== src/Community/Messages.antt =====
-- Notifications of likes (NotifyLike and Messages of internal/cache/community.go, Messages of
-- internal/service/community.go).
use local_life_go.Prelude.{
  ℕ, ◌-◌, Bool, false, not, ◌&&◌, ◌||◌, Option, none, some, List, [], ◌∷◌, ◌++◌, Text, bytes,
  if◌then◌else◌, ltb, leb, ◌==◌, length, take, drop, select, all, is_digit, is_some, parse_uint,
  format_uint,
}
use local_life_go.AppError.{Kind, Fault}
use local_life_go.Community.Profiles.{Profile}
use local_life_go.Effects.{
  Result, ok, err, M, fail_if, from_result, map_error, ◌>>=◌, ◌>>◌, Reply, query, send,
}

pub record LikeMessage : Type 0 where
  pub id : Text
  pub blog_id : ℕ
  pub user_id : ℕ
  pub nickname : Text
  pub avatar : Text

-- An entry of a stream: the two numbers of its identifier, and its field `data`, if it is there.
pub record Notice : Type 0 where
  pub time : ℕ
  pub number : ℕ
  pub content : Option Text

-- The streams of the authors, oldest entry first.
abbrev pub Mailboxes : Type 0
Mailboxes = ℕ → List Notice

abbrev pub id_text : ℕ → ℕ → Text
id_text time number = format_uint time ++ (45 ∷ format_uint number)

-- XADD … MAXLEN 1000
abbrev pub keep_last : ℕ → List Notice → List Notice
keep_last n entries = drop (length entries - n) entries

add_notice : ℕ → Notice → Mailboxes → Mailboxes
add_notice author_id entry boxes other =
    if other == author_id then keep_last 1000 (boxes other ++ (entry ∷ [])) else boxes other

-- `time` and `number` are of the identifier that the server gives; `marshal` is json.Marshal.
unfoldable pub notify_like :
    (LikeMessage → Option Text) → Reply → ℕ → ℕ → ℕ → ℕ → ℕ → Profile → M Mailboxes (Unit {0})
unfolding add_notice
notify_like marshal reply time number blog_id user_id author_id user =
    elim (marshal (record {
      id = [];
      blog_id = blog_id;
      user_id = user_id;
      nickname = user.nickname;
      avatar = user.avatar;
    })) [
      | none ↦ λ boxes. (err Fault.other, boxes)
      | some content ↦ send reply (λ boxes. (
        ok tt,
        add_notice author_id (record { time = time; number = number; content = some content })
            boxes,
      ))
    ]

-- The text before the first dash, and the one after it.
unfoldable pub split_dash : Text → Option (Text × Text)
split_dash [] = none
split_dash (b ∷ rest) =
    let more = split_dash rest in
    if b == 45 then some ([], rest) else elim more [ none ↦ none | some (u, v) ↦ some (b ∷ u, v) ]

abbrev pub is_short_number : Text → Bool
is_short_number t = all is_digit t && leb 1 (length t) && leb (length t) 20

-- messageCursor, and then strconv.ParseUint of both parts.
abbrev pub is_cursor_pair : Option (Text × Text) → Bool
is_cursor_pair none = false
is_cursor_pair (some (u, v)) =
    is_short_number u && is_short_number v && is_some (parse_uint u) && is_some (parse_uint v)

unfoldable pub is_message_cursor : Text → Bool
unfolding split_dash
is_message_cursor cursor = is_cursor_pair (split_dash cursor)

abbrev pub both_numbers : Option ℕ → Option ℕ → Option (ℕ × ℕ)
both_numbers (some a) (some b) = some (a, b)
both_numbers _ _ = none

abbrev pub numbers_of : Option (Text × Text) → Option (ℕ × ℕ)
numbers_of none = none
numbers_of (some (u, v)) = both_numbers (parse_uint u) (parse_uint v)

-- How the server reads the start of a range.
unfoldable pub start_of : Text → Option (ℕ × ℕ)
unfolding split_dash
start_of cursor = numbers_of (split_dash cursor)

unfoldable pub is_later : ℕ × ℕ → Notice → Bool
is_later (time, number) entry =
    ltb time entry.time || (time == entry.time && ltb number entry.number)

-- XRANGE (cursor + COUNT 50
abbrev pub range : Option (ℕ × ℕ) → List Notice → Result (List Notice)
range none entries = err Fault.other
range (some start) entries = ok (take 50 (select (is_later start) entries))

abbrev pub message_of : Notice → Option LikeMessage → Result LikeMessage
message_of entry none = err (Fault.new Kind.dependency)
message_of entry (some item) = ok (record item { id = id_text entry.time entry.number })

abbrev pub and_messages : Result LikeMessage → Result (List LikeMessage) → Result (List LikeMessage)
and_messages (ok item) (ok items) = ok (item ∷ items)
and_messages (ok item) (err e) = err e
and_messages (err e) items = err e

module _ (unmarshal : Text → Option LikeMessage) where
  abbrev pub content_of : Option Text → Option LikeMessage
  content_of none = none
  content_of (some text) = unmarshal text

  unfoldable pub messages_of : List Notice → Result (List LikeMessage)
  messages_of [] = ok []
  messages_of (entry ∷ entries) =
      and_messages (message_of entry (content_of entry.content)) (messages_of entries)

  unfoldable pub stored_messages : Reply → ℕ → Text → M Mailboxes (List LikeMessage)
  unfolding messages_of start_of is_later
  stored_messages reply id cursor = do
    rows ←
        map_error (Fault.wrap Kind.dependency)
          (query reply (λ boxes. range (start_of cursor) (boxes id)))
    from_result (messages_of rows)

abbrev pub or_start : Text → Text
or_start [] = bytes "0-0"
or_start (b ∷ cursor) = b ∷ cursor

unfoldable pub messages :
    {S : Type 0} → (ℕ → Text → M S (List LikeMessage)) → ℕ → Text → M S (List LikeMessage)
unfolding is_message_cursor
messages store id cursor = do
  fail_if (id == 0) (Fault.new Kind.unauthorized)
  fail_if (not (is_message_cursor (or_start cursor))) (Fault.new Kind.validation)
  store id (or_start cursor)
