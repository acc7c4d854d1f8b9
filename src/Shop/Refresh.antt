-- ===== src/Shop/Refresh.antt =====
-- The bounded group of shared refreshes (refresh, the deferred end of rebuild, and Close of
-- internal/service/shop_refresh.go).
pub mod Laws
use local_life_go.Prelude.{
  ℕ, suc, ◌+◌, ◌-◌, ◌*◌, ◌≤◌, ◌<◌, ◌≡◌, ◌≢◌, refl, sym, ap, subst, ◌∙◌, ◌⊎◌, inl, inr, Bool, true,
  false, not, ◌&&◌, ◌||◌, Option, none, some, List, [], ◌∷◌, ◌++◌, map, arith, if◌then◌else◌, ltb,
  leb, ◌==◌, Bool-cases, Option-cases, is_some, length, take, drop, select, count, find, any, all,
  All, sort_by, Text, bytes, same_text, same_text_refl, same_text_sound, digits, format_uint,
  is_digit,
}
use local_life_go.Effects.{
  Result, ok, err, M, pure, raise, fail_if, attempt, from_result, map_error, map_result, ◌>>=◌,
  ◌>>◌, Reply, done, failed, unacknowledged, answer, written, query, send, first_row, is_ok,
  is_unacknowledged, Result-cases, Reply-cases, check_context, wrap_error,
}
use local_life_go.AppError.{Kind, Fault, classified, describe, kind_text}
use local_life_go.Shop.{Shop}

-- A call is known by its number. `jobs` are the goroutines that run, `inflight` is the map of the
-- service, `answered` the calls whose `done` was closed, and `drained` counts the times that the
-- channel of that name was closed: a second time panics.
pub record Service : Type 0 where
  pub inflight : List (ℕ × ℕ)
  pub max_refresh : ℕ
  pub closed : Bool
  pub drained : ℕ
  pub started : ℕ
  pub jobs : List (ℕ × ℕ)
  pub answered : List (ℕ × Result Shop)

unfoldable pub new_shop : Service
new_shop = record {
  inflight = [];
  max_refresh = 64;
  closed = false;
  drained = 0;
  started = 0;
  jobs = [];
  answered = [];
}

abbrev pub is_of : ℕ → ℕ × ℕ → Bool
is_of id entry = entry.0 == id

abbrev pub is_call : {A : Type 0} → ℕ → ℕ × A → Bool
is_call call entry = entry.0 == call

abbrev pub runs : ℕ → ℕ × ℕ → Bool
runs call job = job.1 == call

-- `delete` of a map.
abbrev pub without : ℕ → List (ℕ × ℕ) → List (ℕ × ℕ)
without id entries = select (λ entry. not (is_of id entry)) entries

start : ℕ → Service → Result ℕ × Service
start id s = (
  ok s.started,
  record {
    inflight = (id, s.started) ∷ s.inflight;
    max_refresh = s.max_refresh;
    closed = s.closed;
    drained = s.drained;
    started = suc s.started;
    jobs = (id, s.started) ∷ s.jobs;
    answered = s.answered;
  },
)

join : Option (ℕ × ℕ) → ℕ → Service → Result ℕ × Service
unfolding start
join (some entry) id s = (ok entry.1, s)
join none id s =
    if leb s.max_refresh (length s.inflight)
    then (err (Fault.new Kind.rate_limited), s)
    else start id s

unfoldable pub refresh : ℕ → M Service ℕ
unfolding join
refresh id s =
    if s.closed
    then (err (Fault.new Kind.dependency), s)
    else join (find (is_of id) s.inflight) id s

-- What the job leaves in its call: the rebuild's outcome, or an error where it panicked.
abbrev pub recovered : Option (Result Shop) → Result Shop
recovered none = err (Fault.new Kind.internal)
recovered (some outcome) = outcome

-- The end of the job of a call.
unfoldable pub finish : ℕ → ℕ → Option (Result Shop) → Service → Service
finish id call outcome s = record {
  inflight = without id s.inflight;
  max_refresh = s.max_refresh;
  closed = s.closed;
  drained = if s.closed && (length (without id s.inflight) == 0) then suc s.drained else s.drained;
  started = s.started;
  jobs = select (λ job. not (runs call job)) s.jobs;
  answered = (call, recovered outcome) ∷ s.answered;
}

-- The part of Close that holds the lock.
unfoldable pub begin_close : Service → Service
begin_close s = record {
  inflight = s.inflight;
  max_refresh = s.max_refresh;
  closed = true;
  drained = if not s.closed && (length s.inflight == 0) then suc s.drained else s.drained;
  started = s.started;
  jobs = s.jobs;
  answered = s.answered;
}

-- Close returns nil when `drained` is closed, and the error of its context when that ends first.
unfoldable pub end_close : Option Fault → Service → Result (Unit {0})
end_close (some e) s = err e
end_close none s = ok tt
