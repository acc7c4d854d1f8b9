-- ===== src/Handler/Served.antt =====
-- What the server promises of every response: the handlers within internal/middleware/http.go.
use local_life_go.Prelude.{ℕ, ◌≤◌, ◌≡◌, Option, none, some, Text, bytes}
use local_life_go.AppError.{Fault}
use local_life_go.Handler.{Context}
use local_life_go.Handler.Middleware.{Run, finished, panicked}
use local_life_go.Handler.Laws.{id_header, IsAnswered}

-- After http: one answer, and an error where the deadline has passed.
abbrev Complete : ℕ → Text → Option Fault → Context → Type 0
Complete status id over c = IsAnswered status id c × ((e : Fault) → over ≡ some e → 400 ≤ c.status)

-- The identifier in the headers; a handler that panics leaves the headers as they were then.
abbrev pub Carries : {S : Type 0} → Text → Option (Context × S) → Context → Type 0
Carries id none c = id_header c ≡ some (bytes "X-Request-ID", id)
Carries id (some point) c = c.headers ≡ point.0.headers

module _ {S : Type 0} where
  abbrev end_of : Run S → Context × S
  end_of (finished end) = end
  end_of (panicked point) = point
