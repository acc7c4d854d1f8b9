-- ===== src/Auth/Store.antt =====
-- The codes and the sessions in Redis (internal/cache/auth.go and its two scripts). A key lives
-- until its time, in milliseconds.
pub mod Laws
use local_life_go.Prelude.{
  ◌/◌, parse_uint, ℕ, suc, ◌+◌, ◌-◌, ◌*◌, ◌≤◌, ◌<◌, ◌≡◌, ◌≢◌, refl, sym, ap, subst, ◌∙◌, ◌⊎◌, inl,
  inr, Bool, true, false, not, ◌&&◌, ◌||◌, Option, none, some, List, [], ◌∷◌, ◌++◌, map, arith,
  if◌then◌else◌, ltb, leb, ◌==◌, Bool-cases, Option-cases, is_some, length, take, drop, select,
  count, find, any, all, All, sort_by, Text, bytes, same_text, same_text_refl, same_text_sound,
  digits, format_uint, is_digit,
}
use local_life_go.Effects.{
  Result, ok, err, M, pure, raise, fail_if, attempt, from_result, map_error, map_result, ◌>>=◌,
  ◌>>◌, Reply, done, failed, unacknowledged, answer, written, query, send, first_row, is_ok,
  is_unacknowledged, Result-cases, Reply-cases, check_context, wrap_error,
}
use local_life_go.AppError.{Kind, Fault, classified, describe, kind_text}

pub record Code : Type 0 where
  pub digest : Text
  pub attempts : ℕ

-- The keys: codes and resend limits by the digest of the phone, sessions by the digest of the token.
pub record Logins : Type 0 where
  pub codes : Text → Option (Code × ℕ)
  pub cooldowns : Text → Option ℕ
  pub sessions : Text → Option (Text × ℕ)

abbrev pub set_key : {A : Type 0} → Text → A → (Text → A) → Text → A
set_key key a keys other = if same_text other key then a else keys other

abbrev pub current_code : ℕ → Option (Code × ℕ) → Option (Code × ℕ)
current_code now none = none
current_code now (some (code, until)) = if ltb now until then some (code, until) else none

abbrev pub cools : ℕ → Option ℕ → Bool
cools now none = false
cools now (some until) = ltb now until

abbrev pub current_session : ℕ → Option (Text × ℕ) → Option Text
current_session now none = none
current_session now (some (user, until)) = if ltb now until then some user else none

-- lua/auth_issue.lua
unfoldable pub issue : ℕ → Text → Text → ℕ → ℕ → ℕ → Logins → Bool × Logins
issue now key digest ttl cooldown attempts store =
    if cools now (store.cooldowns key) then (false, store) else (
      true,
      record {
        codes =
            set_key key (some (record { digest = digest; attempts = attempts }, now + ttl))
              store.codes;
        cooldowns = set_key key (some (now + cooldown)) store.cooldowns;
        sessions = store.sessions;
      },
    )

abbrev set_code : Text → Option (Code × ℕ) → Logins → Logins
set_code key code store = record {
  codes = set_key key code store.codes;
  cooldowns = store.cooldowns;
  sessions = store.sessions;
}

consume_current : Text → Text → Option (Code × ℕ) → Logins → Bool × Logins
consume_current key digest none store = (false, store)
consume_current key digest (some (code, until)) store =
    if same_text code.digest digest
    then (true, set_code key none store)
    else if leb (code.attempts - 1) 0
    then (false, set_code key none store)
    else (
      false,
      set_code key (some (record { digest = code.digest; attempts = code.attempts - 1 }, until))
          store,
    )

-- lua/auth_consume.lua
unfoldable pub consume : ℕ → Text → Text → Logins → Bool × Logins
unfolding consume_current
consume now key digest store = consume_current key digest (current_code now (store.codes key)) store

-- SETNX and its time to live, at least a millisecond.
save_new : ℕ → Text → ℕ → ℕ → Logins → Result (Unit {0}) × Logins
save_new now key id ttl store =
    if is_some (current_session now (store.sessions key)) then (err Fault.other, store) else (
      ok tt,
      record {
        codes = store.codes;
        cooldowns = store.cooldowns;
        sessions =
            set_key key
              (some (format_uint id, now + (if ttl / 1000000 == 0 then 1 else ttl / 1000000)))
              store.sessions;
      },
    )

parsed_session : Option ℕ → Result (Option ℕ)
parsed_session none = err Fault.other
parsed_session (some id) = if id == 0 then err Fault.other else ok (some id)

session_value : Option Text → Result (Option ℕ)
unfolding parsed_session
session_value none = ok none
session_value (some value) = parsed_session (parse_uint value)

-- `digest` is the SHA-256 of the standard library, in hexadecimal.
module _ (digest : Text → Text) where
  unfoldable pub code_digest : Text → Text → Text
  code_digest phone code = digest (phone ++ bytes ":" ++ code)

  unfoldable pub issue_code : Reply → ℕ → Text → Text → ℕ → ℕ → ℕ → M Logins Bool
  unfolding issue code_digest
  issue_code reply now phone code ttl cooldown attempts = do
    fail_if (ltb (ttl / 1000000) 1 || ltb (cooldown / 1000000) 1 || ltb attempts 1) Fault.other
    send reply (λ store.
        let (issued, after) =
          issue now (digest phone) (code_digest phone code) (ttl / 1000000) (cooldown / 1000000)
            attempts store in
        (ok issued, after))

  unfoldable pub consume_code : Reply → ℕ → Text → Text → M Logins Bool
  unfolding consume code_digest
  consume_code reply now phone code = send reply (λ store.
      let (consumed, after) = consume now (digest phone) (code_digest phone code) store in
      (ok consumed, after))

  unfoldable pub save_session : Reply → ℕ → Text → ℕ → ℕ → M Logins (Unit {0})
  unfolding save_new
  save_session reply now token id ttl = do
    fail_if (ttl == 0 || id == 0) Fault.other
    send reply (save_new now (digest token) id ttl)

  unfoldable pub session_user : Reply → ℕ → Text → M Logins (Option ℕ)
  unfolding session_value
  session_user reply now token =
      query reply (λ store. session_value (current_session now (store.sessions (digest token))))

  unfoldable pub delete_session : Reply → Text → M Logins (Unit {0})
  delete_session reply token = send reply (λ store. (
    ok tt,
    record {
      codes = store.codes;
      cooldowns = store.cooldowns;
      sessions = set_key (digest token) none store.sessions;
    },
  ))
