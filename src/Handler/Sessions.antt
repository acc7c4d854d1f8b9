-- ===== src/Handler/Sessions.antt =====
-- What the protected routes of internal/handler do with and without a session.
use local_life_go.Prelude.{
  ℕ, ◌≤◌, ◌<◌, ◌≡◌, refl, sym, ap, ◌∙◌, ◌↔◌, ◌⊎◌, inl, inr, true, if◌then◌else◌, Option, none, some,
  Text, bytes, arith,
}
use local_life_go.AppError.{Kind, Fault}
use local_life_go.Effects.{Result, ok, err, M, is_ok}
use local_life_go.Handler.{
  Answer, success_of, accepted, data_of, success, Scope, Request, Context, set_header, fail,
  respond, handle, fresh_context,
}
use local_life_go.Handler.Middleware.{
  finished, with_token, admitted, require_auth, bearer_token, ended, http, valid_id, abort,
}
use local_life_go.Handler.Routes.{
  Services, Library, Protected, protected_route, protected_handler, run_of, chain, served,
}
use local_life_go.Handler.Laws.{describe-status}

abbrev pub id_of : Text → Request → Text
id_of random r = if valid_id r.request_id then r.request_id else random

module _ {S : Type 0} where
  ended-store :
      (over : Option Fault) (scope : Scope) (end : Context × S)
      → (ended over scope (finished end)).1 ≡ end.1
  unfolding ended
  ended-store none scope (c, s) = refl
  ended-store (some e) scope (c, s) = refl

  ended-error :
      (over : Option Fault) (scope : Scope) (end : Context × S)
      → 400 ≤ end.0.status
      → 400 ≤ (ended over scope (finished end)).0.status
  unfolding ended
  ended-error none scope (c, s) h = h
  ended-error (some e) scope (c, s) h = ground arith

  ended-over :
      (e : Fault) (scope : Scope) (end : Context × S)
      → 400 ≤ (ended (some e) scope (finished end)).0.status
  unfolding ended fail
  ended-over e scope (c, s) = ground (arith, describe-status e)

  ended-respond :
      (over : Option Fault) (scope inner : Scope) (answer : Result Answer) (c : Context) (s : S)
      → ((ended over scope (finished (respond inner answer c, s))).0.status < 400)
        ↔ ((over ≡ none) × (is_ok answer ≡ true))
  unfolding ended respond success fail
  ended-respond none scope inner (ok (success_of payload)) c s =
      (λ h. (refl, refl), λ h. omega arith)
  ended-respond none scope inner (ok (accepted payload)) c s = (λ h. (refl, refl), λ h. omega arith)
  ended-respond none scope inner (ok (data_of headers kind content)) c s =
      (λ h. (refl, refl), λ h. omega arith)
  ended-respond none scope inner (err e) c s =
      (λ h. absurd (omega (arith, h, describe-status e)), λ h. absurd (cc h.1))
  ended-respond (some e) scope inner answer c s = (
    λ h. absurd (omega (arith, h, ended-over e scope (respond inner answer c, s))),
    λ h. absurd (cc h.0),
  )

  -- Without a session.
  abbrev pub IsTurnedAway : (Text → M S ℕ) → Request → S → S → Type 0
  IsTurnedAway authenticate r s after =
      ((bearer_token r.authorization ≡ none) × (after ≡ s))
      ⊎ ((token : Text) × (e : Fault) × (bearer_token r.authorization ≡ some token)
          × ((authenticate token s).0 ≡ err e)
          × (after ≡ (authenticate token s).1))

  -- With one.
  abbrev pub IsLetIn :
      (Text → M S ℕ)
      → (Scope → Request → M S Answer)
      → Text
      → Option Fault
      → Request
      → S
      → Context × S
      → Type 0
  IsLetIn authenticate handler id over r s out =
      (token : Text) × (user : ℕ) × (bearer_token r.authorization ≡ some token)
      × ((authenticate token s).0 ≡ ok user)
      × (out.1
          ≡ (handler (record { user_id = user; request_id = id }) r (authenticate token s).1).1)
      × ((out.0.status < 400) ↔ (
          (over ≡ none)
          × (is_ok
                (handler (record { user_id = user; request_id = id }) r (authenticate token s).1).0
              ≡ true)))

  admitted-cases :
      (authenticate : Text → M S ℕ) (handler : Scope → Request → M S Answer) (over : Option Fault)
      (scope : Scope) (r : Request) (c : Context) (s : S) (token : Text) (login : Result ℕ × S)
      → bearer_token r.authorization ≡ some token
      → authenticate token s ≡ login
      → let out = ended over scope (finished (admitted (handle handler) scope r c login)) in
        ((400 ≤ out.0.status) × IsTurnedAway authenticate r s out.1)
        ⊎ IsLetIn authenticate handler scope.request_id over r s out
  unfolding admitted handle
  admitted-cases authenticate handler over scope r c s token (ok user, s') h e =
      let inner : Scope = record { user_id = user; request_id = scope.request_id } in
      let (answer, last) = handler inner r s' in
      inr (
        token,
        user,
        h,
        ap (λ (x : Result ℕ × S). x.0) e,
        rw e (ended-store over scope (respond inner answer c, last)),
        rw e (ended-respond over scope inner answer c last),
      )
  admitted-cases authenticate handler over scope r c s token (err f, s') h e = inl (
    ended-error over scope (abort (fail scope f c), s') (unfold fail in describe-status f),
    inr (
      token,
      f,
      h,
      ap (λ (x : Result ℕ × S). x.0) e,
      ended-store over scope (abort (fail scope f c), s') ∙ sym (ap (λ (x : Result ℕ × S). x.1) e),
    ),
  )

  token-cases :
      (authenticate : Text → M S ℕ) (handler : Scope → Request → M S Answer) (over : Option Fault)
      (scope : Scope) (r : Request) (c : Context) (s : S) (token : Option Text)
      → bearer_token r.authorization ≡ token
      → let out =
          ended over scope
            (finished (with_token authenticate (handle handler) scope r c s token)) in
        ((400 ≤ out.0.status) × IsTurnedAway authenticate r s out.1)
        ⊎ IsLetIn authenticate handler scope.request_id over r s out
  unfolding with_token
  token-cases authenticate handler over scope r c s none h =
      let turned : Context × S = (abort (fail scope (Fault.new Kind.unauthorized) c), s) in
      inl (
        ended-error over scope turned
            (unfold fail in describe-status (Fault.new Kind.unauthorized)),
        inl (h, ended-store over scope turned),
      )
  token-cases authenticate handler over scope r c s (some token) h =
      admitted-cases authenticate handler over scope r c s token (authenticate token s) h refl

  -- A protected route, whose handlers do not panic, either answers an error and has run at most the
  -- check of the session, which gave no user; or it has run its handler, for the user of the session
  -- that the token names, and answers a success exactly if the handler had no error and the deadline
  -- had not passed.
  pub sessions_only :
      (services : Services S) (lib : Library) (random : Text) (over : Option Fault) (p : Protected)
      (r : Request) (s : S)
      → let out = served services lib random over none (protected_route p) r s in
        ((400 ≤ out.0.status) × IsTurnedAway services.auth.authenticate r s out.1)
        ⊎ IsLetIn services.auth.authenticate
            (protected_handler services lib p)
            (id_of random r)
            over
            r
            s
            out
  unfolding served http run_of chain require_auth
  sessions_only services lib random over p r s =
      let scope : Scope = record { user_id = 0; request_id = id_of random r } in
      token-cases services.auth.authenticate (protected_handler services lib p) over scope r
        (set_header (bytes "Cache-Control") (bytes "no-store")
          (set_header (bytes "X-Request-ID") (id_of random r) fresh_context))
        s (bearer_token r.authorization) refl
