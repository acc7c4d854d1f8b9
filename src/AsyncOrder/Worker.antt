-- ===== src/AsyncOrder/Worker.antt =====
-- The worker's polling loop (internal/service/seckill_worker.go). What the contexts, the tables, the
-- queue and the timers answer is a function of the state, which the environment may read ahead.
pub mod Laws
pub mod Scan
use local_life_go.Prelude.{
  not, ◌||◌, bytes, none, length, ◌==◌, ltb, some, same_text, ◌++◌, ◌∷◌, if◌then◌else◌, [], List,
  Text, Bool, Option, ℕ, zero, suc, ◌+◌,
}
use local_life_go.Effects.{Result, ok, err, M}
use local_life_go.Model.{SeckillEvent}
use local_life_go.AsyncOrder.{AsyncOrders, SeckillQueue, process}
use local_life_go.AppError.{Fault}

-- What ends the `select` at the end of a round.
pub data Wake : Type 0 where
  context_done report_due tick_due : Wake

-- The local variables of RunWorker. A missing key of `cursors` reads as the empty text.
pub record Worker : Type 0 where
  pub cursors : ℕ → Text
  pub after : ℕ
  pub processed : ℕ
  pub retries : ℕ
  pub queue_errors : ℕ

abbrev pub new_worker : Worker
new_worker = record { cursors = λ _. []; after = 0; processed = 0; retries = 0; queue_errors = 0 }

abbrev pub page_limit : ℕ
page_limit = 100

abbrev pub last_or : ℕ → List ℕ → ℕ
last_or x [] = x
last_or x (y ∷ ys) = last_or y ys

-- A short page is the last one, and the scan begins again.
unfoldable pub next_after : List ℕ → ℕ
next_after ids = if ltb (length ids) page_limit then 0 else last_or 0 ids

abbrev pub cursor_of : ℕ → Worker → Text
cursor_of id w = if same_text (w.cursors id) [] then bytes "0-0" else w.cursors id

abbrev pub moved : ℕ → Text → Worker → Worker
moved id next w =
    if same_text next []
    then w
    else record w { cursors = λ other. if other == id then next else w.cursors other }

abbrev pub noted : Option Fault → Worker → Worker
noted none w = w
noted (some _) w = record w { queue_errors = w.queue_errors + 1 }

abbrev pub counted : Result (Unit {0}) → Worker → Worker
counted (ok _) w = record w { processed = w.processed + 1 }
counted (err _) w = record w { retries = w.retries + 1 }

-- How far a run has come when it is looked at: returned, with or without an error, or still going.
pub data Progress (S : Type 0) : Type 0 where
  refused : Progress S
  returned : Worker → S → Progress S
  running : Worker → S → Progress S

-- The `select` at the end of a round.
abbrev pub woken : {S : Type 0} → Wake → Worker → S → Progress S → Progress S
woken Wake.context_done w s more = returned w s
woken Wake.report_due w s more = more
woken Wake.tick_due w s more = more

-- `is_done` is ctx.Err() != nil.
module _ {S : Type 0} (orders : AsyncOrders S) (queue : SeckillQueue S) (is_done : S → Bool × S)
    (wait : S → Wake × S) where
  -- for _, event := range append(pending, fresh...)
  unfoldable pub deliver : List SeckillEvent → Worker → S → Worker × S
  deliver [] w s = (w, s)
  deliver (event ∷ events) w s =
      let (stop, s₁) = is_done s in
      let (r, s₂) = process orders queue event s₁ in
      let rest = deliver events (counted r w) s₂ in if stop then (w, s₁) else rest

  -- What a round does for one activity.
  unfoldable pub visit : ℕ → Worker → S → Worker × S
  unfolding deliver
  visit id w s =
      let (pending, next, claim_fault, s₁) = queue.claim id (cursor_of id w) s in
      let (fresh, read_fault, s₂) = queue.read id s₁ in
      deliver (pending ++ fresh) (noted read_fault (noted claim_fault (moved id next w))) s₂

  -- for _, id := range ids
  unfoldable pub visit_all : List ℕ → Worker → S → Worker × S
  unfolding visit
  visit_all [] w s = (w, s)
  visit_all (id ∷ ids) w s =
      let (stop, s₁) = is_done s in
      let (w', s₂) = visit id w s₁ in
      let rest = visit_all ids w' s₂ in if stop then (w, s₁) else rest

  scanned : Result (List ℕ) → Worker → S → Worker × S
  unfolding visit_all next_after
  scanned (ok ids) w s = visit_all ids (record w { after = next_after ids }) s
  scanned (err _) w s = (record w { queue_errors = w.queue_errors + 1 }, s)

  -- The body of the loop before its `select`.
  unfoldable pub round : Worker → S → Worker × S
  unfolding scanned
  round w s = let (ids, s₁) = orders.active_ids w.after page_limit s in scanned ids w s₁

  -- The loop, looked at after at most so many rounds.
  unfoldable pub rounds : ℕ → Worker → S → Progress S
  unfolding round
  rounds zero w s = running w s
  rounds (suc n) w s =
      let (stop, s₁) = is_done s in
      let (w', s₂) = round w s₁ in
      let (wake, s₃) = wait s₂ in
      let rest = rounds n w' s₃ in if stop then returned w s₁ else woken wake w' s₃ rest

  -- The logger has no part but to be there.
  unfoldable pub run_worker : Text → Bool → ℕ → S → Progress S
  unfolding rounds
  run_worker consumer has_logger n s =
      if same_text consumer [] || not has_logger then refused else rounds n new_worker s
