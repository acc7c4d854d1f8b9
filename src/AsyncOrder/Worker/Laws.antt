-- ===== src/AsyncOrder/Worker/Laws.antt =====
-- Which deliveries the polling loop of internal/service/seckill_worker.go hands to Process, and what
-- its counters count.
use local_life_go.Prelude.{
  inr, inl, not, ◌||◌, ap, length-append, same_text, Bool-cases, length, ◌∷◌, [], refl, ◌++◌, ◌∙◌,
  none, false, some, List, arith, ◌≡◌, Bool, Option, Text, ℕ, zero, suc, ◌+◌,
}
use local_life_go.Effects.{err, ok, Result}
use local_life_go.AsyncOrder.{process, SeckillQueue, AsyncOrders}
use local_life_go.AppError.{Fault}
use local_life_go.AsyncOrder.Worker.{
  woken, new_worker, refused, running, next_after, page_limit, cursor_of, returned, deliver, visit,
  round, scanned, rounds, run_worker, visit_all, Progress, Wake, moved, noted, counted, Worker,
}
use local_life_go.Model.{SeckillEvent}
use mathlib.Core.List.{append_assoc}

-- A journal of a run: what Claim and Read have handed over, and what Process was called with.
pub record Journal {S : Type 0} (orders : AsyncOrders S) (queue : SeckillQueue S)
    (is_done : S → Bool × S) (wait : S → Wake × S) : Type 0 where
  pub handed : S → List SeckillEvent
  pub tried : S → List SeckillEvent
  pub done_handed : (s : S) → handed (is_done s).1 ≡ handed s
  pub done_tried : (s : S) → tried (is_done s).1 ≡ tried s
  pub wait_handed : (s : S) → handed (wait s).1 ≡ handed s
  pub wait_tried : (s : S) → tried (wait s).1 ≡ tried s
  pub scan_handed : (after n : ℕ) (s : S) → handed (orders.active_ids after n s).1 ≡ handed s
  pub scan_tried : (after n : ℕ) (s : S) → tried (orders.active_ids after n s).1 ≡ tried s
  pub claim_handed :
      (id : ℕ) (c : Text) (s : S)
      → handed (queue.claim id c s).3 ≡ handed s ++ (queue.claim id c s).0
  pub claim_tried : (id : ℕ) (c : Text) (s : S) → tried (queue.claim id c s).3 ≡ tried s
  pub read_handed : (id : ℕ) (s : S) → handed (queue.read id s).2 ≡ handed s ++ (queue.read id s).0
  pub read_tried : (id : ℕ) (s : S) → tried (queue.read id s).2 ≡ tried s
  pub process_handed :
      (event : SeckillEvent) (s : S) → handed (process orders queue event s).1 ≡ handed s
  pub process_tried :
      (event : SeckillEvent) (s : S)
      → tried (process orders queue event s).1 ≡ tried s ++ event ∷ []

counted-total :
    (r : Result (Unit {0})) (w : Worker)
    → (counted r w).processed + (counted r w).retries ≡ suc (w.processed + w.retries)
counted-total (ok _) w = omega arith
counted-total (err _) w = omega arith

noted-total :
    (e : Option Fault) (w : Worker)
    → (noted e w).processed + (noted e w).retries ≡ w.processed + w.retries
noted-total none w = refl
noted-total (some _) w = refl

moved-total :
    (id : ℕ) (next : Text) (w : Worker)
    → (moved id next w).processed + (moved id next w).retries ≡ w.processed + w.retries
moved-total id next w = ground arith

-- What holds of a run wherever it stands.
abbrev pub AtEveryRound : {S : Type 0} → (Worker → S → Type 0) → Progress S → Type 0
AtEveryRound P refused = Unit
AtEveryRound P (returned w s) = P w s
AtEveryRound P (running w s) = P w s

woken-AtEveryRound :
    {S : Type 0} (P : Worker → S → Type 0) (wake : Wake) (w : Worker) (s : S) (more : Progress S)
    → P w s
    → AtEveryRound P more
    → AtEveryRound P (woken wake w s more)
woken-AtEveryRound P Wake.context_done w s more p q = p
woken-AtEveryRound P Wake.report_due w s more p q = q
woken-AtEveryRound P Wake.tick_due w s more p q = q

module _ {S : Type 0} (orders : AsyncOrders S) (queue : SeckillQueue S) (is_done : S → Bool × S)
    (wait : S → Wake × S) (journal : Journal orders queue is_done wait)
    (going : (s : S) → (is_done s).0 ≡ false) where
  -- All that was handed over has been tried, but for `left`, and the counters count what was tried.
  abbrev pub IsCaughtUp : List SeckillEvent → Worker → S → Type 0
  IsCaughtUp left w s =
      (journal.handed s ≡ journal.tried s ++ left)
      × (w.processed + w.retries ≡ length (journal.tried s))

  -- A call that hands over `more` and tries nothing.
  given-IsCaughtUp :
      (left more : List SeckillEvent) (w w' : Worker) (s s' : S)
      → journal.handed s' ≡ journal.handed s ++ more
      → journal.tried s' ≡ journal.tried s
      → w'.processed + w'.retries ≡ w.processed + w.retries
      → IsCaughtUp left w s
      → IsCaughtUp (left ++ more) w' s'
  given-IsCaughtUp left more w w' s s' hs ts total h = (
    rw (ts, ← append_assoc (journal.tried s) left more) (hs ∙ ap (λ t. t ++ more) h.0),
    rw ts (total ∙ h.1),
  )

  -- A call that does neither.
  still-IsCaughtUp :
      (left : List SeckillEvent) (w w' : Worker) (s s' : S)
      → journal.handed s' ≡ journal.handed s
      → journal.tried s' ≡ journal.tried s
      → w'.processed + w'.retries ≡ w.processed + w.retries
      → IsCaughtUp left w s
      → IsCaughtUp left w' s'
  still-IsCaughtUp left w w' s s' hs ts total h = (rw ts (hs ∙ h.0), rw ts (total ∙ h.1))

  process-IsCaughtUp :
      (event : SeckillEvent) (events : List SeckillEvent) (w : Worker) (s : S)
      → IsCaughtUp (event ∷ events) w s
      → let (r, s') = process orders queue event s in IsCaughtUp events (counted r w) s'
  process-IsCaughtUp event events w s h = (
    rw (journal.process_tried event s, append_assoc (journal.tried s) (event ∷ []) events)
        (journal.process_handed event s ∙ h.0),
    rw (journal.process_tried event s) (
        omega (
          arith,
          h.1,
          counted-total (process orders queue event s).0 w,
          length-append {0} (journal.tried s) (event ∷ []),
        )),
  )

  asked-IsCaughtUp :
      (left : List SeckillEvent) (w : Worker) (s : S)
      → IsCaughtUp left w s
      → IsCaughtUp left w (is_done s).1
  asked-IsCaughtUp left w s h =
      still-IsCaughtUp left w w s (is_done s).1 (journal.done_handed s) (journal.done_tried s) refl
        h

  deliver-IsCaughtUp :
      (events : List SeckillEvent) (w : Worker) (s : S)
      → IsCaughtUp events w s
      → let (w', s') = deliver orders queue is_done wait events w s in IsCaughtUp [] w' s'
  unfolding deliver
  deliver-IsCaughtUp [] w s h = h
  deliver-IsCaughtUp (event ∷ events) w s h = rw (going s) (
      deliver-IsCaughtUp events _ _
        (process-IsCaughtUp event events w (is_done s).1 (asked-IsCaughtUp (event ∷ events) w s h)))

  -- Errors of Claim and Read, and what the cursors say, change nothing here.
  visit-IsCaughtUp :
      (id : ℕ) (w : Worker) (s : S)
      → IsCaughtUp [] w s
      → let (w', s') = visit orders queue is_done wait id w s in IsCaughtUp [] w' s'
  unfolding visit
  visit-IsCaughtUp id w s h =
      let (pending, next, claim_fault, s₁) = queue.claim id (cursor_of id w) s in
      let (fresh, read_fault, s₂) = queue.read id s₁ in
      let w₁ = moved id next w in
      let w₂ = noted claim_fault w₁ in
      let claimed =
        given-IsCaughtUp [] pending w w₂ s s₁ (journal.claim_handed id (cursor_of id w) s)
          (journal.claim_tried id (cursor_of id w) s)
          (noted-total claim_fault w₁ ∙ moved-total id next w) h in
      deliver-IsCaughtUp (pending ++ fresh) (noted read_fault w₂) s₂ (
        given-IsCaughtUp pending fresh w₂ (noted read_fault w₂) s₁ s₂ (journal.read_handed id s₁)
          (journal.read_tried id s₁) (noted-total read_fault w₂) claimed)

  visit_all-IsCaughtUp :
      (ids : List ℕ) (w : Worker) (s : S)
      → IsCaughtUp [] w s
      → let (w', s') = visit_all orders queue is_done wait ids w s in IsCaughtUp [] w' s'
  unfolding visit_all
  visit_all-IsCaughtUp [] w s h = h
  visit_all-IsCaughtUp (id ∷ ids) w s h = rw (going s) (
      visit_all-IsCaughtUp ids _ _
        (visit-IsCaughtUp id w (is_done s).1 (asked-IsCaughtUp [] w s h)))

  scanned-IsCaughtUp :
      (r : Result (List ℕ)) (w : Worker) (s : S)
      → IsCaughtUp [] w s
      → let (w', s') = scanned orders queue is_done wait r w s in IsCaughtUp [] w' s'
  unfolding scanned
  scanned-IsCaughtUp (ok ids) w s h =
      visit_all-IsCaughtUp ids (record w { after = next_after ids }) s h
  scanned-IsCaughtUp (err _) w s h = h

  round-IsCaughtUp :
      (w : Worker) (s : S)
      → IsCaughtUp [] w s
      → let (w', s') = round orders queue is_done wait w s in IsCaughtUp [] w' s'
  unfolding round
  round-IsCaughtUp w s h =
      let (ids, s₁) = orders.active_ids w.after page_limit s in
      scanned-IsCaughtUp ids w s₁ (
        still-IsCaughtUp [] w w s s₁ (journal.scan_handed w.after page_limit s)
          (journal.scan_tried w.after page_limit s) refl h)

  rounds-IsCaughtUp :
      (n : ℕ) (w : Worker) (s : S)
      → IsCaughtUp [] w s
      → AtEveryRound (IsCaughtUp []) (rounds orders queue is_done wait n w s)
  unfolding rounds
  rounds-IsCaughtUp zero w s h = h
  rounds-IsCaughtUp (suc n) w s h = rw (going s) (
      let (w₁, s₁) = round orders queue is_done wait w (is_done s).1 in
      let s₂ = (wait s₁).1 in
      let kept =
        still-IsCaughtUp [] w₁ w₁ s₁ s₂ (journal.wait_handed s₁) (journal.wait_tried s₁) refl
          (round-IsCaughtUp w (is_done s).1 (asked-IsCaughtUp [] w s h)) in
      woken-AtEveryRound (IsCaughtUp []) (wait s₁).0 w₁ s₂
        (rounds orders queue is_done wait n w₁ s₂) kept (rounds-IsCaughtUp n w₁ s₂ kept))

  -- While the context lasts, the worker hands every delivery that Claim and Read give it to Process,
  -- each once and in their order, whatever scans, claims, reads and deliveries fail; and the
  -- deliveries that it counts as processed and as retries are together those it tried.
  pub run_worker-IsCaughtUp :
      (consumer : Text) (has_logger : Bool) (n : ℕ) (s : S)
      → journal.handed s ≡ []
      → journal.tried s ≡ []
      → AtEveryRound (IsCaughtUp []) (run_worker orders queue is_done wait consumer has_logger n s)
  unfolding run_worker
  run_worker-IsCaughtUp consumer has_logger n s hs ts =
      elim (Bool-cases (same_text consumer [] || not has_logger)) [
        | inl no_start ↦ rw no_start tt
        | inr start ↦ rw start (rounds-IsCaughtUp n new_worker s (rw ts hs, rw ts refl))
      ]
