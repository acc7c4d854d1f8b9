-- ===== src/Examples/Community.antt =====
-- A user signs in on the third day of a month after signing in on the second; his blogs are liked.
use local_life_go.Prelude.{◌≡◌, refl, true, ltb, ◌==◌, bytes, same_text}
use local_life_go.Prelude.{ℕ, Text, [], ◌∷◌}
use local_life_go.Prelude.{Option, some, select, take, format_uint, parse_uint, arith}
use local_life_go.Community.Messages.{
  LikeMessage, Notice, Mailboxes, id_text, is_later, messages_of, stored_messages, messages,
}
use local_life_go.Community.Reading.{messages_on}
use local_life_go.Effects.{done, ok}
use local_life_go.Community.{SignState, Today, Signs, sign}
use local_life_go.Community.Streak.{in_a_row, sign-streak}

abbrev third : Today
third = record { month = bytes "202601"; date = bytes "2026-01-03"; day = 3 }

abbrev second_only : Signs
second_only user month n = n == 1

abbrev two_days : SignState
two_days = record { date = bytes "2026-01-03"; signed = true; streak = 2 }

sign-streak_example :
    (two_days.streak ≡ in_a_row 3 ((sign done done third 7 true second_only).1 7 (bytes "202601")))
    × (two_days.signed ≡ ltb 0 two_days.streak)
    × (two_days.date ≡ third.date)
unfolding sign same_text
sign-streak_example = sign-streak done done third 7 true second_only two_days refl

-- The text of a notification is the name of the one who likes.
abbrev liked_by : Text → Option LikeMessage
liked_by name = some (record { id = []; blog_id = 1; user_id = 2; nickname = name; avatar = [] })

abbrev notice : ℕ → Text → Notice
notice number name = record { time = 100; number = number; content = some name }

abbrev mailboxes : Mailboxes
mailboxes _ = notice 0 (bytes "ann") ∷ notice 1 (bytes "bob") ∷ []

abbrev told : ℕ → Text → LikeMessage
told number name = record {
  id = id_text 100 number;
  blog_id = 1;
  user_id = 2;
  nickname = name;
  avatar = [];
}

messages_on_example :
    messages_of liked_by (take 100 (select (is_later (100, 0)) (mailboxes 7)))
    ≡ ok (told 1 (bytes "bob") ∷ [])
unfolding messages stored_messages format_uint parse_uint
messages_on_example =
    messages_on liked_by done done 7 (bytes "100-0") mailboxes (100, 0) (told 1 (bytes "bob") ∷ [])
      [] ((((refl, tt)), (tt, tt))) ((omega arith, omega arith), ((omega arith, omega arith), tt))
      refl refl refl
