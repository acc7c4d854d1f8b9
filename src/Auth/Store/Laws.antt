-- ===== src/Auth/Store/Laws.antt =====
-- A login code: how long it may be guessed at, and how often it may be used; and a session.
use local_life_go.Prelude.{
  parse_uint-format_uint, ◌/◌, zero, ℕ, suc, ◌+◌, ◌-◌, ◌<◌, ◌≡◌, ◌≢◌, refl, ap, ◌∙◌, true, false,
  Option, none, some, List, [], ◌∷◌, arith, if◌then◌else◌, ltb, ◌==◌, Option-cases, length, All,
  Text, same_text, same_text_refl, format_uint,
}
use local_life_go.Effects.{ok, err, done}
use local_life_go.AppError.{Fault}
use local_life_go.Auth.{is_code, six_digits}
use local_life_go.Auth.Store.{
  Code, Logins, set_key, current_code, cools, current_session, code_digest, issue_code,
  consume_code, save_session, session_user, delete_session,
}

set_key_self : {A : Type 0} (key : Text) (a : A) (keys : Text → A) → set_key key a keys key ≡ a
set_key_self key a keys = ground (arith, same_text_refl key)

-- The code that is sent is one that the login accepts: six digits.
six_digits-is_code : (n : ℕ) → is_code (six_digits n) ≡ true
unfolding is_code six_digits
six_digits-is_code n = ground arith

-- The code that is left after some tries.
abbrev left : Text → ℕ → ℕ → Option (Code × ℕ)
left digest until n =
    if n == 0 then none else some (record { digest = digest; attempts = n }, until)

module _ (digest : Text → Text) (phone : Text) where
  -- Guesses at the code of one phone, one after the other, each at its time.
  abbrev pub guess_all : List (ℕ × Text) → Logins → Logins
  guess_all [] store = store
  guess_all ((now, code) ∷ rest) store =
      guess_all rest (consume_code digest done now phone code store).1

  -- A guess before a time that does not have the digest of a code.
  abbrev pub IsWrong : ℕ → Text → ℕ × Text → Type 0
  IsWrong until code guess =
      (guess.0 < until)
      × (same_text (code_digest digest phone code) (code_digest digest phone guess.1) ≡ false)

  guess-left :
      (until n now : ℕ) (code guess : Text) (store : Logins)
      → store.codes (digest phone) ≡ left (code_digest digest phone code) until n
      → now < until
      → same_text (code_digest digest phone code) (code_digest digest phone guess) ≡ false
      → (consume_code digest done now phone guess store).1.codes (digest phone)
        ≡ left (code_digest digest phone code) until (n - 1)
  unfolding consume_code
  guess-left until zero now code guess store e t w =
      ground (arith, e, ap (current_code now) e, same_text_refl (digest phone))
  guess-left until (suc n) now code guess store e t w =
      ground (arith, e, ap (current_code now) e, same_text_refl (digest phone), w, t)

  guess_all-left :
      (until n : ℕ) (code : Text) (wrong : List (ℕ × Text)) (store : Logins)
      → All (IsWrong until code) wrong
      → store.codes (digest phone) ≡ left (code_digest digest phone code) until n
      → (guess_all wrong store).codes (digest phone)
        ≡ left (code_digest digest phone code) until (n - length wrong)
  guess_all-left until n code [] store w e =
      e ∙ ap (left (code_digest digest phone code) until) {x = n} {y = n - 0} (omega arith)
  guess_all-left until n code ((now, guess) ∷ rest) store ((t, other), w) e =
      guess_all-left until (n - 1) code rest (consume_code digest done now phone guess store).1 w
        (guess-left until n now code guess store e t other)
      ∙ ap (left (code_digest digest phone code) until) {x = n - 1 - length rest}
          {y = n - suc (length rest)} (omega arith)

  consume_code-left :
      (until n now : ℕ) (code : Text) (store : Logins)
      → store.codes (digest phone) ≡ left (code_digest digest phone code) until n
      → now < until
      → (consume_code digest done now phone code store).0 ≡ ok (ltb 0 n)
  unfolding consume_code
  consume_code-left until zero now code store e t = ground (arith, e, ap (current_code now) e)
  consume_code-left until (suc n) now code store e t =
      ground (arith, e, ap (current_code now) e, same_text_refl (code_digest digest phone code), t)

  issue_code-left :
      (now ttl cooldown attempts : ℕ) (code : Text) (store : Logins)
      → (issue_code digest done now phone code ttl cooldown attempts store).0 ≡ ok true
      → (issue_code digest done now phone code ttl cooldown attempts store).1.codes (digest phone)
        ≡ left (code_digest digest phone code) (now + ttl / 1000000) attempts
  unfolding issue_code
  issue_code-left now ttl cooldown attempts code store h =
      ground (arith, h, same_text_refl (digest phone))

  -- A code may be guessed at exactly as often as its policy says: when it has been issued and then
  -- any number of guesses with another digest were made before it expires, the code itself is accepted
  -- before it expires if and only if there were fewer guesses than attempts.
  pub code_attempts :
      (now ttl cooldown attempts later : ℕ) (code : Text) (wrong : List (ℕ × Text)) (store : Logins)
      → (issue_code digest done now phone code ttl cooldown attempts store).0 ≡ ok true
      → All (IsWrong (now + ttl / 1000000) code) wrong
      → later < now + ttl / 1000000
      → (consume_code digest done later phone code
          (guess_all wrong (issue_code digest done now phone code ttl cooldown attempts store).1)).0
        ≡ ok (ltb (length wrong) attempts)
  code_attempts now ttl cooldown attempts later code wrong store h w t =
      let issued = (issue_code digest done now phone code ttl cooldown attempts store).1 in
      let until = now + ttl / 1000000 in
      consume_code-left until (attempts - length wrong) later code (guess_all wrong issued)
        (guess_all-left until attempts code wrong issued w
          (issue_code-left now ttl cooldown attempts code store h))
        t
      ∙ ap ok {x = ltb 0 (attempts - length wrong)} {y = ltb (length wrong) attempts} (ground arith)

  pub consumed-none :
      (now : ℕ) (code : Text) (store : Logins)
      → (consume_code digest done now phone code store).0 ≡ ok true
      → (consume_code digest done now phone code store).1.codes (digest phone) ≡ none
  unfolding consume_code
  consumed-none now code store h =
      ground (arith, h, Option-cases (store.codes (digest phone)), same_text_refl (digest phone))

  pub consume_code-none :
      (now : ℕ) (code : Text) (store : Logins)
      → store.codes (digest phone) ≡ none
      → (consume_code digest done now phone code store).0 ≡ ok false
  unfolding consume_code
  consume_code-none now code store e = ground (arith, e, ap (current_code now) e)

  -- A code is used once: after a login attempt that consumed it, no attempt for the phone consumes a
  -- code, with any code and at any time, until the next one is issued.
  pub consume_code_once :
      (now later : ℕ) (code other : Text) (store : Logins)
      → (consume_code digest done now phone code store).0 ≡ ok true
      → (consume_code digest done later phone other
          (consume_code digest done now phone code store).1).0
        ≡ ok false
  consume_code_once now later code other store h =
      consume_code-none later other (consume_code digest done now phone code store).1
        (consumed-none now code store h)

  cooldowns-consume_code :
      (now : ℕ) (code : Text) (store : Logins)
      → (consume_code digest done now phone code store).1.cooldowns ≡ store.cooldowns
  unfolding consume_code
  cooldowns-consume_code now code store = ground (arith, Option-cases (store.codes (digest phone)))

  cooldowns-guess_all :
      (gs : List (ℕ × Text)) (store : Logins) → (guess_all gs store).cooldowns ≡ store.cooldowns
  cooldowns-guess_all [] store = refl
  cooldowns-guess_all ((now, code) ∷ rest) store =
      cooldowns-guess_all rest (consume_code digest done now phone code store).1
      ∙ cooldowns-consume_code now code store

  issue_code-cools :
      (now ttl cooldown attempts : ℕ) (code : Text) (store : Logins)
      → (issue_code digest done now phone code ttl cooldown attempts store).0 ≡ ok true
      → (issue_code digest done now phone code ttl cooldown attempts store).1.cooldowns
          (digest phone)
        ≡ some (now + cooldown / 1000000)
  unfolding issue_code
  issue_code-cools now ttl cooldown attempts code store h =
      ground (arith, h, same_text_refl (digest phone))

  issue_code-refused :
      (until later ttl cooldown attempts : ℕ) (code : Text) (store : Logins)
      → store.cooldowns (digest phone) ≡ some until
      → later < until
      → (issue_code digest done later phone code ttl cooldown attempts store).0 ≢ ok true
  unfolding issue_code
  issue_code-refused until later ttl cooldown attempts code store e t h =
      ground (arith, e, ap (cools later) e, t, h)

  -- A second code is not sent within the cooldown: after a code was issued, and however often it was
  -- guessed at or used, a request for the same phone before the cooldown is over issues none.
  pub issue_code_cooldown :
      (now later ttl cooldown attempts : ℕ) (code other : Text) (tried : List (ℕ × Text))
      (store : Logins)
      → (issue_code digest done now phone code ttl cooldown attempts store).0 ≡ ok true
      → later < now + cooldown / 1000000
      → (issue_code digest done later phone other ttl cooldown attempts
          (guess_all tried (issue_code digest done now phone code ttl cooldown attempts store).1)).0
        ≢ ok true
  issue_code_cooldown now later ttl cooldown attempts code other tried store h t =
      let issued = (issue_code digest done now phone code ttl cooldown attempts store).1 in
      issue_code-refused (now + cooldown / 1000000) later ttl cooldown attempts other
        (guess_all tried issued)
        (ap (λ keys. keys (digest phone)) (cooldowns-guess_all tried issued)
          ∙ issue_code-cools now ttl cooldown attempts code store h)
        t

pub save_session-saved :
    (digest : Text → Text) (now : ℕ) (token : Text) (id ttl : ℕ) (store : Logins)
    → (save_session digest done now token id ttl store).0 ≡ ok tt
    → ((save_session digest done now token id ttl store).1.sessions (digest token)
        ≡ some (format_uint id, now + (if ttl / 1000000 == 0 then 1 else ttl / 1000000)))
      × (0 < id)
      × (0 < ttl)
unfolding save_session
save_session-saved digest now token id ttl store h =
    ground (arith, h, same_text_refl (digest token))

pub session_user-saved :
    (digest : Text → Text) (until later : ℕ) (token : Text) (id : ℕ) (store : Logins)
    → store.sessions (digest token) ≡ some (format_uint id, until)
    → later < until
    → id < 18446744073709551616
    → 0 < id
    → (session_user digest done later token store).0 ≡ ok (some id)
unfolding session_user
session_user-saved digest until later token id store e t w u =
    ground (arith, e, ap (current_session later) e, parse_uint-format_uint id w, t, u)

save_session-taken :
    (digest : Text → Text) (until later : ℕ) (token user : Text) (other ttl : ℕ) (store : Logins)
    → store.sessions (digest token) ≡ some (user, until)
    → later < until
    → save_session digest done later token other ttl store ≡ (err Fault.other, store)
unfolding save_session
save_session-taken digest until later token user other ttl store e t =
    ground (arith, e, ap (current_session later) e, t)

session_user-deleted :
    (digest : Text → Text) (later : ℕ) (token : Text) (store : Logins)
    → (session_user digest done later token (delete_session digest done token store).1).0 ≡ ok none
unfolding session_user delete_session
session_user-deleted digest later token store = ground (arith, same_text_refl (digest token))

-- A session is read back: a saved session names its user, for a user identifier of 64 bits, at every
-- time before it expires; the same token cannot be taken by another user meanwhile; and once it is
-- deleted the token names no user.
pub session_user-save_session :
    (digest : Text → Text) (now later : ℕ) (token : Text) (id other ttl : ℕ) (store : Logins)
    → (save_session digest done now token id ttl store).0 ≡ ok tt
    → id < 18446744073709551616
    → later < now + ttl / 1000000
    → 0 < other
    → ((session_user digest done later token (save_session digest done now token id ttl store).1).0
        ≡ ok (some id))
      × (save_session digest done later token other ttl
            (save_session digest done now token id ttl store).1
          ≡ (err Fault.other, (save_session digest done now token id ttl store).1))
      × ((session_user digest done later token
            (delete_session digest done token
              (save_session digest done now token id ttl store).1).1).0
          ≡ ok none)
session_user-save_session digest now later token id other ttl store h w t u =
    let (saved, user, life) = save_session-saved digest now token id ttl store h in
    let after = (save_session digest done now token id ttl store).1 in
    let until = now + (if ttl / 1000000 == 0 then 1 else ttl / 1000000) in
    let lives : later < until = ground (arith, t) in
    (
      session_user-saved digest until later token id after saved lives w user,
      save_session-taken digest until later token (format_uint id) other ttl after saved lives,
      session_user-deleted digest later token after,
    )
