-- ===== src/Auth/Sessions.antt =====
-- The life of a session (internal/service/auth.go and internal/cache/auth.go): what other logins, codes
-- and logouts leave of it, and of the code that was used for it.
use local_life_go.Prelude.{
  subst, format_uint, ◌==◌, if◌then◌else◌, ◌≢◌, find, ◌/◌, ◌+◌, true, ◌≤◌, Option, ◌∙◌, sym, arith,
  ap, false, same_text, ◌<◌, some, Text, ℕ, ◌≡◌,
}
use local_life_go.Auth.World.{
  World, Environment, users, store, run_login, login-Parts, consumed-after, saved-after,
  codes-save_session, authenticated, spent,
}
use local_life_go.Auth.Store.{consume_code, issue_code, delete_session, save_session}
use local_life_go.Effects.{done, ok, Result, Reply}
use local_life_go.Auth.{
  PublicUser, authenticate, User, valid_token, LoginResult, public_user, AuthOptions,
}
use local_life_go.Auth.Accounts.Laws.{call_ok}
use local_life_go.Auth.Accounts.{is_user_of, UserTable}
use local_life_go.Auth.Store.Laws.{session_user-saved}
use local_life_go.Auth.Held.{Held, issue_code-Held, delete_session-Held, login-Held}

-- What may come between a login and the use of its session: codes for phones of other digests,
-- logins of anyone, the same user among them, by the time that the session ends, logouts of tokens of
-- other digests, and any change of the table of users.
pub data Between (digest : Text → Text) (phone token : Text) (until : ℕ) (start : World)
    : World → Type 0 where
  at_once : Between digest phone token until start start
  code_issued :
      {w : World} (reply : Reply) (now : ℕ) (other code : Text) (ttl cooldown attempts : ℕ)
      → Between digest phone token until start w
      → same_text (digest phone) (digest other) ≡ false
      → Between digest phone token until start (record w {
        logins = (issue_code digest reply now other code ttl cooldown attempts w.logins).1;
      })
  logged_in :
      {w : World} (env : Environment) (options : AuthOptions) (random : Result Text)
      (other code : Text)
      → Between digest phone token until start w
      → env.now < until
      → Between digest phone token until start (run_login digest env options random other code w).1
  logged_out :
      {w : World} (reply : Reply) (other : Text)
      → Between digest phone token until start w
      → same_text (digest token) (digest other) ≡ false
      → Between digest phone token until start
          (record w { logins = (delete_session digest reply other w.logins).1 })
  users_changed :
      {w : World} (table : UserTable)
      → Between digest phone token until start w
      → Between digest phone token until start (record w { table = table })

module _ (digest : Text → Text) (phone token user : Text) (until ends : ℕ) where
  Between-Held :
      {start w : World}
      → until ≤ ends
      → Held (digest phone) (digest token) (user, ends) start.logins
      → Between digest phone token until start w
      → Held (digest phone) (digest token) (user, ends) w.logins
  Between-Held le h at_once = h
  Between-Held le h (code_issued reply now other code ttl cooldown attempts b apart) =
      issue_code-Held digest (digest phone) (digest token) user ends reply now other code ttl
        cooldown attempts _ apart (Between-Held le h b)
  Between-Held le h (logged_in env options random other code b early) =
      login-Held digest (digest phone) (digest token) user ends env options random other code _
        (omega arith) (Between-Held le h b)
  Between-Held le h (logged_out reply other b apart) =
      delete_session-Held digest (digest phone) (digest token) user ends reply other _ apart
        (Between-Held le h b)
  Between-Held le h (users_changed table b) = Between-Held le h b

module _ (digest : Text → Text) (options : AuthOptions) (decode : Text → Option Text) where
  -- A login that succeeds: the user of the result is the one whose row has the phone, up to what the
  -- public view shows. Then, with any codes for phones of other digests, logins of anyone, logouts of
  -- tokens of other digests and changes of the users in between, as long as the session lives its
  -- token authenticates that user, and no login for the phone succeeds, with this code or any other.
  -- The logins in between are to come before the session ends, Redis is to answer the later call, the
  -- token to be well formed and to decode to its 32 bytes, and the number of the user to be one of
  -- 64 bits.
  pub login_ok :
      (env later : Environment) (random again : Result Text) (phone code other : Text)
      (w w' : World) (res res' : LoginResult)
      → (run_login digest env options random phone code w).0 ≡ ok res
      → valid_token (users later) (store digest later) options decode res.token ≡ true
      → res.user.id < 18446744073709551616
      → Between digest phone res.token
          (env.now + options.session_ttl / 1000000)
          (run_login digest env options random phone code w).1
          w'
      → later.reply ≡ done
      → later.now < env.now + options.session_ttl / 1000000
      → let after = (run_login digest env options random phone code w).1 in
        ((u : User) × (find (is_user_of phone) after.table.users ≡ some u)
          × (res.user ≡ public_user u))
        × ((authenticate (users later) (store digest later) options decode res.token w').0
            ≡ ok res.user.id)
        × ((run_login digest later options again phone other w').0 ≢ ok res')
  unfolding public_user
  login_ok env later random again phone code other w w' res res' h v small between q lives =
      let (u, (consumed, made, given, saved, shown, after)) =
        login-Parts digest env options random phone code w res h in
      let logins = (consume_code digest env.reply env.now phone code w.logins).1 in
      let (session, positive, _) =
        saved-after digest env.saving env.now res.token u.id options.session_ttl logins saved in
      let life = options.session_ttl / 1000000 in
      let until = env.now + (if life == 0 then 1 else life) in
      let stored =
        (save_session digest env.saving env.now res.token u.id options.session_ttl logins).1 in
      let number : res.user.id ≡ u.id = ap (λ (p : PublicUser). p.id) shown in
      let longer : env.now + life ≤ until = ground arith in
      let held : Held (digest phone) (digest res.token) (format_uint u.id, until) stored = (
        ap (λ codes. codes (digest phone))
              (codes-save_session digest env.saving env.now res.token u.id options.session_ttl
                logins)
            ∙ consumed-after digest phone env.reply env.now code w.logins consumed,
        session,
      ) in
      let start_held =
        subst
          (λ (x : World). Held (digest phone) (digest res.token) (format_uint u.id, until) x.logins)
          (sym after) held in
      let (unset, alive) =
        Between-Held digest phone res.token (format_uint u.id) (env.now + life) until longer
          start_held between in
      let read =
        session_user-saved digest until later.now res.token u.id w'.logins alive (omega arith)
          (omega arith) positive in
      (
        (u, rw after (call_ok env.account phone w.table u made), shown),
        authenticated digest options decode later res.token res.user.id w' v (rw (q, number) read),
        spent digest options decode later again phone other w' res' q unset,
      )
