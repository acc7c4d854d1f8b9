-- ===== src/Handler/Laws.antt =====
-- What the handlers promise of every response.
use local_life_go.Prelude.{
  sym, find, select, All, not, false, same_text, same_text_sound, Bool, ℕ, ◌≤◌, ◌≡◌, refl, ap, ◌∙◌,
  ◌⊎◌, inl, inr, Option, none, some, List, [], ◌∷◌, ◌++◌, Text, bytes, arith, Bool-cases,
}
use local_life_go.AppError.{
  Kind, Fault, describe, describe_kind, is_deadline, is_canceled, classified,
}
use local_life_go.Effects.{Result, ok, err, M}
use local_life_go.Handler.{
  Answer, Payload, Scope, Request, Context, Content, Handler, failure, success, fail, respond,
  handle, set_header, with_headers,
}
use local_life_go.Handler.Statuses.{
  Yields, success_status, open-Yields, public-Yields, protected-Yields,
}
use local_life_go.Handler.Middleware.{
  abort, no_store, require_auth, admitted, with_token, bearer_token,
}
use local_life_go.Handler.Routes.{
  Services, Library, Route, open_route, public_route, protected_route, open_handler, public_handler,
  protected_handler, chain,
}

-- What a client sees of an error.
abbrev pub IsFailure : Text → Fault → Context → Type 0
IsFailure id e c =
    (c.status ≡ (describe e).status)
    × (c.body ≡ failure (record { user_id = 0; request_id = id }) (describe e) ∷ [])
    × (c.error_code ≡ (describe e).code)

abbrev pub IsSuccess : ℕ → Text → Context → Type 0
IsSuccess status id c =
    (c.status ≡ status)
    × (((payload : Payload) × (c.body
            ≡ Content.json (record {
              code = bytes "ok";
              message = bytes "success";
              payload = payload;
              request_id = id;
            })
              ∷ []))
        ⊎ ((kind : Text) × (content : Text) × (c.body ≡ Content.raw kind content ∷ [])))

-- One answer in the body, and the status with it.
abbrev pub IsAnswered : ℕ → Text → Context → Type 0
IsAnswered status id c = IsSuccess status id c ⊎ ((e : Fault) × IsFailure id e c)

-- The header that carries the identifier of the request.
abbrev pub is_id_header : Text × Text → Bool
is_id_header h = same_text h.0 (bytes "X-Request-ID")

abbrev pub id_header : Context → Option (Text × Text)
id_header c = find is_id_header c.headers

find-select :
    (name : Text) (headers : List (Text × Text))
    → same_text name (bytes "X-Request-ID") ≡ false
    → find is_id_header (select (λ (h : Text × Text). not (same_text h.0 name)) headers)
      ≡ find is_id_header headers
find-select name [] other = refl
find-select name (h ∷ headers) other = elim (Bool-cases (same_text h.0 name)) [
  | inl same ↦
      let not_id : is_id_header h ≡ false =
        ap (λ n. same_text n (bytes "X-Request-ID")) (same_text_sound h.0 name same) ∙ other in
      rw (same, not_id) (find-select name headers other)
  | inr apart ↦ ground (arith, apart, find-select name headers other)
]

pub set_header-id_header :
    (name value : Text) (c : Context)
    → same_text name (bytes "X-Request-ID") ≡ false
    → id_header (set_header name value c) ≡ id_header c
set_header-id_header name value c other = rw other (find-select name c.headers other)

with_headers-id_header :
    (headers : List (Text × Text)) (c : Context)
    → All (λ (h : Text × Text). same_text h.0 (bytes "X-Request-ID") ≡ false) headers
    → id_header (with_headers headers c) ≡ id_header c
with_headers-id_header [] c others = refl
with_headers-id_header (h ∷ headers) c (other, others) =
    with_headers-id_header headers (set_header h.0 h.1 c) others
    ∙ set_header-id_header h.0 h.1 c other

describe_kind-status : (k : Option Kind) → 400 ≤ (describe_kind k).status
unfolding describe_kind
describe_kind-status none = omega arith
describe_kind-status (some Kind.validation) = omega arith
describe_kind-status (some Kind.dependency) = omega arith
describe_kind-status (some _) = omega arith

pub describe-status : (e : Fault) → 400 ≤ (describe e).status
unfolding describe
describe-status e = elim (Bool-cases (is_deadline e)) [
  | inl d ↦ rw d (omega arith)
  | inr d ↦ elim (Bool-cases (is_canceled e)) [
    | inl c ↦ rw (d, c) (omega arith)
    | inr c ↦ rw (d, c) (describe_kind-status (classified e))
  ]
]

one_of : {A : Type 0} {xs : List A} (x : A) → xs ≡ [] → xs ++ (x ∷ []) ≡ x ∷ []
one_of x h = ap (λ b. b ++ (x ∷ [])) h

-- A handler that is given an empty body leaves one answer in it.
with_headers-body :
    (headers : List (Text × Text)) (c : Context) → (with_headers headers c).body ≡ c.body
with_headers-body [] c = refl
with_headers-body (h ∷ headers) c = with_headers-body headers (set_header h.0 h.1 c)

respond-IsAnswered :
    (status : ℕ) (scope : Scope) (r : Result Answer) (c : Context)
    → Yields status r
    → c.body ≡ []
    → IsAnswered status scope.request_id (respond scope r c)
      × (id_header (respond scope r c) ≡ id_header c)
unfolding respond success fail
respond-IsAnswered status scope (ok (Answer.success_of payload)) c y h =
    (inl (sym y, inl (payload, one_of _ h)), refl)
respond-IsAnswered status scope (ok (Answer.accepted payload)) c y h =
    (inl (sym y, inl (payload, one_of _ h)), refl)
respond-IsAnswered status scope (ok (Answer.data_of headers kind content)) c (y, others) h = (
  inl (sym y, inr (kind, content, one_of _ (with_headers-body headers c ∙ h))),
  with_headers-id_header headers c others,
)
respond-IsAnswered status scope (err e) c y h = (inr (e, (refl, one_of _ h, refl)), refl)

pub fail-IsFailure :
    (scope : Scope) (e : Fault) (c : Context)
    → c.body ≡ []
    → IsFailure scope.request_id e (fail scope e c)
unfolding fail
fail-IsFailure scope e c h = (refl, one_of _ h, refl)

pub fail-id_header :
    (scope : Scope) (e : Fault) (c : Context) → (fail scope e c).headers ≡ c.headers
unfolding fail
fail-id_header scope e c = refl

refused-IsAnswered :
    (status : ℕ) (scope : Scope) (e : Fault) (c : Context)
    → c.body ≡ []
    → IsAnswered status scope.request_id (abort (fail scope e c))
      × (id_header (abort (fail scope e c)) ≡ id_header c)
refused-IsAnswered status scope e c h =
    (inr (e, fail-IsFailure scope e c h), ap (find is_id_header) (fail-id_header scope e c))

module _ {S : Type 0} where
  -- A handler that makes one answer of an empty body and leaves the identifier's header alone.
  abbrev pub Answers : ℕ → Handler S → Type 0
  Answers status h =
      (scope : Scope) (r : Request) (c : Context) (s : S)
      → c.body ≡ []
      → IsAnswered status scope.request_id (h scope r c s).0
        × (id_header (h scope r c s).0 ≡ id_header c)

  handle-Answers :
      (status : ℕ) (f : Scope → Request → M S Answer)
      → ((scope : Scope) (r : Request) (s : S) → Yields status (f scope r s).0)
      → Answers status (handle f)
  unfolding handle
  handle-Answers status f y scope r c s h =
      respond-IsAnswered status scope (f scope r s).0 c (y scope r s) h

  admitted-IsAnswered :
      (status : ℕ) (next : Handler S) (scope : Scope) (r : Request) (c : Context)
      (login : Result ℕ × S)
      → Answers status next
      → c.body ≡ []
      → IsAnswered status scope.request_id (admitted next scope r c login).0
        × (id_header (admitted next scope r c login).0 ≡ id_header c)
  unfolding admitted
  admitted-IsAnswered status next scope r c (ok id, s) answers h =
      answers (record scope { user_id = id }) r c s h
  admitted-IsAnswered status next scope r c (err e, s) answers h =
      refused-IsAnswered status scope e c h

  with_token-IsAnswered :
      (status : ℕ) (authenticate : Text → M S ℕ) (next : Handler S) (scope : Scope) (r : Request)
      (c : Context) (s : S) (token : Option Text)
      → Answers status next
      → c.body ≡ []
      → IsAnswered status scope.request_id (with_token authenticate next scope r c s token).0
        × (id_header (with_token authenticate next scope r c s token).0 ≡ id_header c)
  unfolding with_token
  with_token-IsAnswered status authenticate next scope r c s none answers h =
      refused-IsAnswered status scope (Fault.new Kind.unauthorized) c h
  with_token-IsAnswered status authenticate next scope r c s (some token) answers h =
      admitted-IsAnswered status next scope r c (authenticate token s) answers h

  no_store-Answers :
      (status : ℕ) (next : Handler S) → Answers status next → Answers status (no_store next)
  unfolding same_text
  no_store-Answers status next answers scope r c s h =
      let c' = set_header (bytes "Cache-Control") (bytes "no-store") c in
      let (answered, kept) = answers scope r c' s h in
      (answered, kept ∙ set_header-id_header (bytes "Cache-Control") (bytes "no-store") c refl)

  pub chain-Answers :
      (services : Services S) (lib : Library) (route : Route)
      → Answers (success_status route) (chain services lib route)
  unfolding chain require_auth
  chain-Answers services lib (open_route o) =
      handle-Answers _ (open_handler services lib o)
        (λ scope r s. open-Yields services lib scope r s o)
  chain-Answers services lib (public_route p) =
      no_store-Answers _ (handle (public_handler services lib p)) (
        handle-Answers _ (public_handler services lib p)
          (λ scope r s. public-Yields services lib scope r s p))
  chain-Answers services lib (protected_route p) =
      let next = handle (protected_handler services lib p) in
      let answers =
        handle-Answers (success_status (protected_route p)) (protected_handler services lib p)
          (λ scope r s. protected-Yields services lib scope r s p) in
      no_store-Answers _ (require_auth services.auth.authenticate next) (λ scope r c s h.
        with_token-IsAnswered _ services.auth.authenticate next scope r c s
          (bearer_token r.authorization) answers h)
