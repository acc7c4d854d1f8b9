-- ===== src/AppError.antt =====
-- Errors (pkg/apperror/error.go): the kinds, the chains of causes, and the public description.
-- A Go error is a chain: `new` and `wrap` are `*apperror.Error` without and with a cause, the
-- other constructors are the errors of the context and of GORM that the code names, and `other`
-- is any error that the code tells apart from none of these.
pub mod Laws
use local_life_go.Prelude.{ℕ, Bool, true, false, Option, none, some, Text, bytes, if◌then◌else◌}

pub data Kind : Type 0 where
  validation unauthorized not_found conflict rate_limited dependency internal : Kind
  method_not_allowed activity_not_started activity_ended sold_out already_purchased : Kind

pub data Fault : Type 0 where
  canceled deadline_exceeded record_not_found foreign_key_violated duplicated_key other : Fault
  new : Kind → Fault
  wrap : Kind → Fault → Fault

-- The string constants of type Kind.
unfoldable pub kind_text : Kind → Text
kind_text Kind.validation = bytes "validation"
kind_text Kind.unauthorized = bytes "unauthorized"
kind_text Kind.not_found = bytes "not_found"
kind_text Kind.conflict = bytes "conflict"
kind_text Kind.rate_limited = bytes "rate_limited"
kind_text Kind.dependency = bytes "dependency_failure"
kind_text Kind.internal = bytes "internal"
kind_text Kind.method_not_allowed = bytes "method_not_allowed"
kind_text Kind.activity_not_started = bytes "activity_not_started"
kind_text Kind.activity_ended = bytes "activity_ended"
kind_text Kind.sold_out = bytes "sold_out"
kind_text Kind.already_purchased = bytes "already_purchased"

-- errors.Is(err, context.DeadlineExceeded)
abbrev pub is_deadline : Fault → Bool
is_deadline Fault.deadline_exceeded = true
is_deadline (Fault.wrap _ cause) = is_deadline cause
is_deadline _ = false

-- errors.Is(err, context.Canceled)
abbrev pub is_canceled : Fault → Bool
is_canceled Fault.canceled = true
is_canceled (Fault.wrap _ cause) = is_canceled cause
is_canceled _ = false

-- errors.Is(err, gorm.ErrRecordNotFound)
abbrev pub is_record_not_found : Fault → Bool
is_record_not_found Fault.record_not_found = true
is_record_not_found (Fault.wrap _ cause) = is_record_not_found cause
is_record_not_found _ = false

-- errors.Is(err, gorm.ErrForeignKeyViolated)
abbrev pub is_foreign_key_violated : Fault → Bool
is_foreign_key_violated Fault.foreign_key_violated = true
is_foreign_key_violated (Fault.wrap _ cause) = is_foreign_key_violated cause
is_foreign_key_violated _ = false

-- errors.Is(err, gorm.ErrDuplicatedKey)
abbrev pub is_duplicated_key : Fault → Bool
is_duplicated_key Fault.duplicated_key = true
is_duplicated_key (Fault.wrap _ cause) = is_duplicated_key cause
is_duplicated_key _ = false

-- errors.As(err, &classified): the kind of the outermost `*apperror.Error`.
abbrev pub classified : Fault → Option Kind
classified (Fault.new k) = some k
classified (Fault.wrap k _) = some k
classified _ = none

pub record Description : Type 0 where
  pub status : ℕ
  pub code : Text
  pub message : Text

-- The `switch` of `Describe`; a kind without a case falls through to the last line.
unfoldable pub describe_kind : Option Kind → Description
unfolding kind_text
describe_kind (some Kind.validation) = record {
  status = 400;
  code = kind_text Kind.validation;
  message = bytes "invalid request";
}
describe_kind (some Kind.unauthorized) = record {
  status = 401;
  code = kind_text Kind.unauthorized;
  message = bytes "authentication required";
}
describe_kind (some Kind.not_found) = record {
  status = 404;
  code = kind_text Kind.not_found;
  message = bytes "resource not found";
}
describe_kind (some Kind.conflict) = record {
  status = 409;
  code = kind_text Kind.conflict;
  message = bytes "resource conflict";
}
describe_kind (some Kind.activity_not_started) = record {
  status = 409;
  code = kind_text Kind.activity_not_started;
  message = bytes "activity has not started";
}
describe_kind (some Kind.activity_ended) = record {
  status = 409;
  code = kind_text Kind.activity_ended;
  message = bytes "activity has ended";
}
describe_kind (some Kind.sold_out) = record {
  status = 409;
  code = kind_text Kind.sold_out;
  message = bytes "voucher is sold out";
}
describe_kind (some Kind.already_purchased) = record {
  status = 409;
  code = kind_text Kind.already_purchased;
  message = bytes "voucher already purchased";
}
describe_kind (some Kind.rate_limited) = record {
  status = 429;
  code = kind_text Kind.rate_limited;
  message = bytes "too many requests";
}
describe_kind (some Kind.dependency) = record {
  status = 503;
  code = kind_text Kind.dependency;
  message = bytes "dependency unavailable";
}
describe_kind (some Kind.method_not_allowed) = record {
  status = 405;
  code = kind_text Kind.method_not_allowed;
  message = bytes "method not allowed";
}
describe_kind _ = record {
  status = 500;
  code = kind_text Kind.internal;
  message = bytes "internal server error";
}

unfoldable pub describe : Fault → Description
unfolding describe_kind
describe e =
    if is_deadline e
    then record { status = 504; code = bytes "timeout"; message = bytes "request timed out" }
    else if is_canceled e
    then record {
      status = 408;
      code = bytes "request_canceled";
      message = bytes "request canceled";
    }
    else describe_kind (classified e)
