-- ===== src/AppError/Laws.antt =====
-- What a client can learn from a described error.
use local_life_go.Prelude.{
  ℕ, ◌≡◌, refl, ap, ◌∙◌, sym, false, Option, none, some, Text, bytes, if◌then◌else◌, same_text,
  Bool-cases, inl, inr,
}
use local_life_go.AppError.{
  Kind, Fault, Description, kind_text, is_deadline, is_canceled, classified, describe_kind,
  describe,
}

-- The cause of a classified error does not show: as long as no error of the chain is a context's
-- deadline or cancellation, the answer to a wrapped error is the answer to the bare kind.
pub describe-wrap :
    (k : Kind) (cause : Fault)
    → is_deadline cause ≡ false
    → is_canceled cause ≡ false
    → describe (Fault.wrap k cause) ≡ describe (Fault.new k)
unfolding describe
describe-wrap k cause d c = rw (d, c)

-- The other fields of a public answer, looked up by its code.
lookup_code : Text → ℕ × Text
unfolding same_text kind_text
lookup_code c =
    if same_text c (kind_text Kind.validation)
    then (400, bytes "invalid request")
    else if same_text c (kind_text Kind.unauthorized)
    then (401, bytes "authentication required")
    else if same_text c (kind_text Kind.not_found)
    then (404, bytes "resource not found")
    else if same_text c (kind_text Kind.conflict)
    then (409, bytes "resource conflict")
    else if same_text c (kind_text Kind.activity_not_started)
    then (409, bytes "activity has not started")
    else if same_text c (kind_text Kind.activity_ended)
    then (409, bytes "activity has ended")
    else if same_text c (kind_text Kind.sold_out)
    then (409, bytes "voucher is sold out")
    else if same_text c (kind_text Kind.already_purchased)
    then (409, bytes "voucher already purchased")
    else if same_text c (kind_text Kind.rate_limited)
    then (429, bytes "too many requests")
    else if same_text c (kind_text Kind.dependency)
    then (503, bytes "dependency unavailable")
    else if same_text c (kind_text Kind.method_not_allowed)
    then (405, bytes "method not allowed")
    else if same_text c (bytes "timeout")
    then (504, bytes "request timed out")
    else if same_text c (bytes "request_canceled")
    then (408, bytes "request canceled")
    else (500, bytes "internal server error")

abbrev Agrees : Description → Type 0
Agrees d = (d.status, d.message) ≡ lookup_code d.code

describe_kind-Agrees : (k : Option Kind) → Agrees (describe_kind k)
unfolding lookup_code describe_kind
describe_kind-Agrees none = refl
describe_kind-Agrees (some Kind.validation) = refl
describe_kind-Agrees (some _) = refl

describe-Agrees : (e : Fault) → Agrees (describe e)
unfolding describe lookup_code
describe-Agrees e = elim (Bool-cases (is_deadline e)) [
  | inl late ↦ rw late
  | inr late ↦ elim (Bool-cases (is_canceled e)) [
    | inl gone ↦ rw (late, gone)
    | inr active ↦ rw (late, active) (describe_kind-Agrees (classified e))
  ]
]

abbrev rebuild : Text → Description
rebuild c = record { status = (lookup_code c).0; code = c; message = (lookup_code c).1 }

rebuild-code : (d : Description) → Agrees d → d ≡ rebuild d.code
rebuild-code d h = λ i. record { status = (h i).0; code = d.code; message = (h i).1 }

-- The public code determines the whole answer: two errors that are described by one code have the
-- same status and message too.
pub describe-code_injective :
    (e e' : Fault) → (describe e).code ≡ (describe e').code → describe e ≡ describe e'
describe-code_injective e e' h =
    rebuild-code (describe e) (describe-Agrees e)
    ∙ ap rebuild h
    ∙ sym (rebuild-code (describe e') (describe-Agrees e'))
