-- ===== src/Community.antt =====
-- Signing in (Sign of internal/service/community.go and internal/cache/community.go): a bitmap for each
-- user and month, with one bit for each day.
pub mod Streak
pub mod Profiles
pub mod Messages
pub mod Streams
pub mod Reading
use local_life_go.Prelude.{
  ◌%◌, zero, ◌/◌, ℕ, suc, ◌+◌, ◌-◌, ◌*◌, ◌≤◌, ◌<◌, ◌≡◌, ◌≢◌, refl, sym, ap, subst, ◌∙◌, ◌⊎◌, inl,
  inr, Bool, true, false, not, ◌&&◌, ◌||◌, Option, none, some, List, [], ◌∷◌, ◌++◌, map, arith,
  if◌then◌else◌, ltb, leb, ◌==◌, Bool-cases, Option-cases, is_some, length, take, drop, select,
  count, find, any, all, All, sort_by, Text, bytes, same_text, same_text_refl, same_text_sound,
  digits, format_uint, is_digit,
}
use local_life_go.Effects.{
  Result, ok, err, M, pure, raise, fail_if, attempt, from_result, map_error, map_result, ◌>>=◌,
  ◌>>◌, Reply, done, failed, unacknowledged, answer, written, query, send, first_row, is_ok,
  is_unacknowledged, Result-cases, Reply-cases, check_context, wrap_error,
}
use local_life_go.AppError.{Kind, Fault, classified, describe, kind_text}

pub record SignState : Type 0 where
  pub date : Text
  pub signed : Bool
  pub streak : ℕ

-- The day that the clock shows in Shanghai: the texts that the code prints of it, and its number in
-- the month, from 1.
pub record Today : Type 0 where
  pub month : Text
  pub date : Text
  pub day : ℕ

-- The bitmaps of a user, by month; an unset bit is 0.
abbrev pub Signs : Type 0
Signs = ℕ → Text → ℕ → Bool

-- SETBIT … 1
abbrev pub set_bit : ℕ → Text → ℕ → Signs → Signs
set_bit id month offset signs user other n =
    if user == id && same_text other month && (n == offset) then true else signs user other n

-- BITFIELD GET u<n> 0: the first n bits, the first of them the highest.
unfoldable pub field : ℕ → (ℕ → Bool) → ℕ
field zero bits = 0
field (suc n) bits = 2 * field n bits + (if bits n then 1 else 0)

-- `for n := bits[0]; n&1 == 1; n >>= 1`; the field of a day has that many bits, so that many rounds
-- are enough.
unfoldable pub count_streak : ℕ → ℕ → ℕ
count_streak zero n = 0
count_streak (suc rounds) n =
    let more = count_streak rounds (n / 2) in if n % 2 == 1 then suc more else 0

state_of : Today → ℕ → SignState
unfolding count_streak
state_of today bits = record {
  date = today.date;
  signed = ltb 0 (count_streak today.day bits);
  streak = count_streak today.day bits;
}

-- `set` is the reply to SETBIT and `got` the one to BITFIELD.
unfoldable pub sign : Reply → Reply → Today → ℕ → Bool → M Signs SignState
unfolding state_of field
sign set got today id write = do
  fail_if (id == 0) (Fault.new Kind.unauthorized)
  (if write
      then map_error (Fault.wrap Kind.dependency)
          (send set (λ signs. (ok tt, set_bit id today.month (today.day - 1) signs)))
      else pure tt)
  bits ←
      map_error (Fault.wrap Kind.dependency)
        (query got (λ signs. ok (field today.day (signs id today.month))))
  pure (state_of today bits)
