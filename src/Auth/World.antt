-- ===== src/Auth/World.antt =====
-- Login over both stores: the service of internal/service/auth.go with the table of users
-- (internal/repository/user.go) and the keys in Redis (internal/cache/auth.go).
use local_life_go.Prelude.{
  subst, ◌≢◌, ◌<◌, ◌==◌, ◌/◌, if◌then◌else◌, format_uint, some, Option, none, Bool-cases, inl,
  arith, inr, true, ◌≡◌, Text, ℕ, ◌+◌,
}
use local_life_go.Auth.{
  public_user, User, LoginResult, AuthOptions, Users, AuthStore, login, authenticate, valid_token,
}
use local_life_go.Auth.Accounts.{UserTable, user_by_id}
use local_life_go.Auth.Store.{
  Logins, issue_code, consume_code, save_session, session_user, delete_session,
}
use local_life_go.Auth.Accounts.Laws.{Surroundings, call}
use local_life_go.Effects.{done, Reply-cases, Result-cases, ok, Result, Reply, M}
use local_life_go.Auth.Store.Laws.{consume_code-none, save_session-saved, consumed-none}

pub record World : Type 0 where
  pub table : UserTable
  pub logins : Logins

abbrev pub on_table : {A : Type 0} → M UserTable A → M World A
on_table m w = let (r, after) = m w.table in (r, record { table = after; logins = w.logins })

abbrev pub on_logins : {A : Type 0} → M Logins A → M World A
on_logins m w = let (r, after) = m w.logins in (r, record { table = w.table; logins = after })

-- What the environment decides in one call: the reply to its code or session command and the time of
-- the server there, the reply to the saving of a session, and what surrounds FindOrCreate.
pub record Environment : Type 0 where
  pub reply : Reply
  pub saving : Reply
  pub now : ℕ
  pub account : Surroundings

unfoldable pub users : Environment → Users World
users env = record {
  find_or_create = λ phone. on_table (call env.account phone);
  by_id = λ id. on_table (user_by_id env.account.selecting id);
}

-- `digest` is SHA-256.
module _ (digest : Text → Text) where
  unfoldable pub store : Environment → AuthStore World
  store env = record {
    issue_code = λ phone code ttl cooldown attempts.
        on_logins (issue_code digest env.reply env.now phone code ttl cooldown attempts);
    consume_code = λ phone code. on_logins (consume_code digest env.reply env.now phone code);
    save_session = λ token id ttl. on_logins (save_session digest env.saving env.now token id ttl);
    session_user = λ token. on_logins (session_user digest env.reply env.now token);
    delete_session = λ token. on_logins (delete_session digest env.reply token);
  }

  abbrev pub run_login :
      Environment → AuthOptions → Result Text → Text → Text → World → Result LoginResult × World
  run_login env options random phone code = login (users env) (store env) options random phone code

  -- The parts of a login that succeeds.
  abbrev pub Parts :
      Environment → AuthOptions → Result Text → Text → Text → World → LoginResult → User → Type 0
  Parts env options random phone code w res u =
      let consumed = consume_code digest env.reply env.now phone code w.logins in
      let made = call env.account phone w.table in
      let saved =
        save_session digest env.saving env.now res.token u.id options.session_ttl consumed.1 in
      (consumed.0 ≡ ok true)
      × (made.0 ≡ ok u)
      × (random ≡ ok res.token)
      × (saved.0 ≡ ok tt)
      × (res.user ≡ public_user u)
      × ((run_login env options random phone code w).1
          ≡ record { table = made.1; logins = saved.1 })

  pub login-Parts :
      (env : Environment) (options : AuthOptions) (random : Result Text) (phone code : Text)
      (w : World) (res : LoginResult)
      → (run_login env options random phone code w).0 ≡ ok res
      → (u : User) × Parts env options random phone code w res u
  unfolding login users store
  login-Parts env options random phone code w res h =
      elim (Result-cases (consume_code digest env.reply env.now phone code w.logins).0) [
        | inr (e, failure) ↦ absurd (ground (arith, h))
        | inl (was, consumed) ↦ elim (Result-cases (call env.account phone w.table).0) [
          | inr (e, failure) ↦ absurd (ground (arith, h, Bool-cases was))
          | inl (u, made) ↦ elim (Result-cases random) [
            | inr (e, failure) ↦ absurd (ground (arith, h, Bool-cases was))
            | inl (token, given) ↦
                elim (Result-cases
                  (save_session digest env.saving env.now token u.id options.session_ttl
                    (consume_code digest env.reply env.now phone code w.logins).1).0) [
                      | inr (e, failure) ↦ absurd (ground (arith, h, Bool-cases was))
                      | inl (t, saved) ↦
                          (u, ground (arith, h, consumed, made, given, saved, Bool-cases was))
                    ]
          ]
        ]
      ]

pub consumed-after :
    (digest : Text → Text) (phone : Text) (reply : Reply) (now : ℕ) (code : Text) (logins : Logins)
    → (consume_code digest reply now phone code logins).0 ≡ ok true
    → (consume_code digest reply now phone code logins).1.codes (digest phone) ≡ none
unfolding consume_code
consumed-after digest phone done now code logins h = consumed-none digest phone now code logins h
consumed-after digest phone (Reply.failed e) now code logins h = absurd (ground (arith, h))
consumed-after digest phone (Reply.unacknowledged e) now code logins h = absurd (ground (arith, h))

pub saved-after :
    (digest : Text → Text) (reply : Reply) (now : ℕ) (token : Text) (id ttl : ℕ) (logins : Logins)
    → (save_session digest reply now token id ttl logins).0 ≡ ok tt
    → ((save_session digest reply now token id ttl logins).1.sessions (digest token)
        ≡ some (format_uint id, now + (if ttl / 1000000 == 0 then 1 else ttl / 1000000)))
      × (0 < id)
      × (0 < ttl)
unfolding save_session
saved-after digest done now token id ttl logins h =
    save_session-saved digest now token id ttl logins h
saved-after digest (Reply.failed e) now token id ttl logins h = absurd (ground (arith, h))
saved-after digest (Reply.unacknowledged e) now token id ttl logins h = absurd (ground (arith, h))

pub codes-save_session :
    (digest : Text → Text) (reply : Reply) (now : ℕ) (token : Text) (id ttl : ℕ) (logins : Logins)
    → (save_session digest reply now token id ttl logins).1.codes ≡ logins.codes
unfolding save_session
codes-save_session digest reply now token id ttl logins = ground (arith, Reply-cases reply)

module _ (digest : Text → Text) (options : AuthOptions) (decode : Text → Option Text) where
  pub authenticated :
      (env : Environment) (token : Text) (id : ℕ) (w : World)
      → valid_token (users env) (store digest env) options decode token ≡ true
      → (session_user digest env.reply env.now token w.logins).0 ≡ ok (some id)
      → (authenticate (users env) (store digest env) options decode token w).0 ≡ ok id
  unfolding authenticate store
  authenticated env token id w v s = ground (arith, v, s)

  pub spent :
      (env : Environment) (random : Result Text) (phone code : Text) (w : World) (res : LoginResult)
      → env.reply ≡ done
      → w.logins.codes (digest phone) ≡ none
      → (run_login digest env options random phone code w).0 ≢ ok res
  spent env random phone code w res q e h =
      let consumed = (login-Parts digest env options random phone code w res h).1.0 in
      let refused = consume_code-none digest phone env.now code w.logins e in
      cc (
        subst (λ (r : Reply). (consume_code digest r env.now phone code w.logins).0 ≡ ok true) q
            consumed,
        refused,
      )
