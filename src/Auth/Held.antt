-- ===== src/Auth/Held.antt =====
-- The keys of a login (internal/cache/auth.go): a session that is there and a code that is used up stay
-- so whatever other logins, codes and logouts do.
use local_life_go.Prelude.{
  ◌||◌, not, ◌⊎◌, Option-cases, inr, ◌∙◌, same_text_sound, sym, arith, ap, false, inl, same_text,
  Bool-cases, ◌<◌, some, none, Text, ℕ, ◌≡◌,
}
use local_life_go.Auth.World.{World, Environment, users, store, run_login, spent}
use local_life_go.Auth.Store.{issue, consume_code, issue_code, delete_session, save_session, Logins}
use local_life_go.Effects.{Result-cases, Result, Reply-cases, Reply}
use local_life_go.Auth.{is_code, is_phone, login, AuthOptions}
use local_life_go.Auth.Accounts.Laws.{call}

-- The code of the phone is used up, and the session of the token is there.
abbrev pub Held : Text → Text → Text × ℕ → Logins → Type 0
Held phone_key token_key session logins =
    (logins.codes phone_key ≡ none) × (logins.sessions token_key ≡ some session)

module _ (digest : Text → Text) (phone_key token_key user : Text) (until : ℕ) where
  pub issue_code-Held :
      (reply : Reply) (now : ℕ) (other code : Text) (ttl cooldown attempts : ℕ) (logins : Logins)
      → same_text phone_key (digest other) ≡ false
      → Held phone_key token_key (user, until) logins
      → Held phone_key token_key
          (user, until)
          (issue_code digest reply now other code ttl cooldown attempts logins).1
  unfolding issue_code issue
  issue_code-Held reply now other code ttl cooldown attempts logins apart (spent, alive) =
      ground (arith, apart, spent, alive, Reply-cases reply)

  pub delete_session-Held :
      (reply : Reply) (other : Text) (logins : Logins)
      → same_text token_key (digest other) ≡ false
      → Held phone_key token_key (user, until) logins
      → Held phone_key token_key (user, until) (delete_session digest reply other logins).1
  unfolding delete_session
  delete_session-Held reply other logins apart (spent, alive) =
      ground (arith, apart, spent, alive, Reply-cases reply)

  consume_code-Held :
      (reply : Reply) (now : ℕ) (other code : Text) (logins : Logins)
      → Held phone_key token_key (user, until) logins
      → Held phone_key token_key (user, until) (consume_code digest reply now other code logins).1
  unfolding consume_code
  consume_code-Held reply now other code logins (spent, alive) =
      elim (Bool-cases (same_text phone_key (digest other))) [
        | inl same ↦
            let unset : logins.codes (digest other) ≡ none =
              ap logins.codes (sym (same_text_sound phone_key (digest other) same)) ∙ spent in
            ground (arith, unset, spent, alive, Reply-cases reply)
        | inr apart ↦ ground (
          arith,
          apart,
          spent,
          alive,
          Reply-cases reply,
          Option-cases (logins.codes (digest other)),
        )
      ]

  save_session-Held :
      (reply : Reply) (now : ℕ) (other : Text) (id ttl : ℕ) (logins : Logins)
      → now < until
      → Held phone_key token_key (user, until) logins
      → Held phone_key token_key (user, until) (save_session digest reply now other id ttl logins).1
  unfolding save_session
  save_session-Held reply now other id ttl logins early (spent, alive) =
      elim (Bool-cases (same_text token_key (digest other))) [
        | inl same ↦
            let taken : logins.sessions (digest other) ≡ some (user, until) =
              ap logins.sessions (sym (same_text_sound token_key (digest other) same)) ∙ alive in
            ground (arith, early, taken, spent, alive, Reply-cases reply)
        | inr apart ↦ ground (arith, apart, spent, alive, Reply-cases reply)
      ]

-- What a login leaves of the keys: it was turned away, or it asked for its code, or it went on to
-- save a session.
login-logins :
    (digest : Text → Text) (env : Environment) (options : AuthOptions) (random : Result Text)
    (phone code : Text) (w : World)
    → let after = (run_login digest env options random phone code w).1.logins in
      let consumed = (consume_code digest env.reply env.now phone code w.logins).1 in
      (after ≡ w.logins)
      ⊎ (after ≡ consumed)
      ⊎ ((token : Text) × (id : ℕ) × (after
            ≡ (save_session digest env.saving env.now token id options.session_ttl consumed).1))
unfolding login users store
login-logins digest env options random phone code w =
    elim (Bool-cases (not (is_phone phone) || not (is_code code))) [
      | inl bad ↦ inl (ground (arith, bad))
      | inr good ↦
          elim (Result-cases (consume_code digest env.reply env.now phone code w.logins).0) [
            | inr (e, failure) ↦ inr (inl (ground (arith, good, failure)))
            | inl (was, consumed) ↦ elim (Bool-cases was) [
              | inr declined ↦ inr (inl (ground (arith, good, consumed, declined)))
              | inl taken_up ↦ elim (Result-cases (call env.account phone w.table).0) [
                | inr (e, failure) ↦ inr (inl (ground (arith, good, consumed, taken_up, failure)))
                | inl (u, made) ↦ elim (Result-cases random) [
                  | inr (e, failure) ↦
                      inr (inl (ground (arith, good, consumed, taken_up, made, failure)))
                  | inl (token, given) ↦ inr (
                      inr (
                        token,
                        u.id,
                        ground (
                          arith,
                          good,
                          consumed,
                          taken_up,
                          made,
                          given,
                          Result-cases
                              (save_session digest env.saving env.now token u.id options.session_ttl
                                (consume_code digest env.reply env.now phone code w.logins).1).0,
                        ),
                      ))
                ]
              ]
            ]
          ]
    ]

module _ (digest : Text → Text) (phone_key token_key user : Text) (until : ℕ) where
  pub login-Held :
      (env : Environment) (options : AuthOptions) (random : Result Text) (other code : Text)
      (w : World)
      → env.now < until
      → Held phone_key token_key (user, until) w.logins
      → Held phone_key token_key
          (user, until)
          (run_login digest env options random other code w).1.logins
  login-Held env options random other code w early h =
      let consumed = (consume_code digest env.reply env.now other code w.logins).1 in
      let kept =
        consume_code-Held digest phone_key token_key user until env.reply env.now other code
          w.logins h in
      elim (login-logins digest env options random other code w) [
        | inl same ↦ rw same h
        | inr (inl after) ↦ rw after kept
        | inr (inr (token, id, after)) ↦ rw after (
            save_session-Held digest phone_key token_key user until env.saving env.now token id
              options.session_ttl consumed early kept)
      ]
