-- ===== src/Shop/Refresh/Laws.antt =====
-- The group of refreshes under every interleaving of requests, jobs that end, and Close.
use local_life_go.Prelude.{
  false, subst, ltb, some, none, ap, find, ◌∙◌, Option-cases, ◌+◌, ℕ, ◌≤◌, ◌≡◌, refl, Bool, true,
  not, ◌&&◌, Option, List, [], ◌∷◌, arith, if◌then◌else◌, ◌==◌, Bool-cases, length, select, count,
  any,
}
use local_life_go.Effects.{ok, Result}
use local_life_go.Shop.{Shop}
use local_life_go.Shop.Refresh.{
  without, is_call, Service, new_shop, refresh, finish, begin_close, is_of, runs,
}

-- What may happen next: a request asks for a refresh, a job ends, the service is closed.
pub data Step : Service → Service → Type 0 where
  requested : (id : ℕ) (s : Service) → Step s (refresh id s).1
  ended :
      (id call : ℕ) (outcome : Option (Result Shop)) (s : Service)
      → any (λ (job : ℕ × ℕ). is_of id job && runs call job) s.jobs ≡ true
      → Step s (finish id call outcome s)
  closing : (s : Service) → Step s (begin_close s)

pub data Reach : Service → Type 0 where
  initial : Reach new_shop
  next : (s t : Service) → Reach s → Step s t → Reach t

select-count_none :
    (p : ℕ × ℕ → Bool) (xs : List (ℕ × ℕ)) → count p xs ≡ 0 → select (λ x. not (p x)) xs ≡ xs
select-count_none p [] h = refl
select-count_none p (x ∷ xs) h = ground (arith, h, select-count_none p xs, Bool-cases (p x))

count-any :
    (p q : ℕ × ℕ → Bool) (xs : List (ℕ × ℕ))
    → any (λ x. p x && q x) xs ≡ true
    → (1 ≤ count p xs) × (1 ≤ count q xs)
count-any p q [] h = ground arith
count-any p q (x ∷ xs) h = ground (arith, h, count-any p q xs, Bool-cases (p x), Bool-cases (q x))

-- A job is taken off the list and its shop off the map: where both are unique, that is the same.
select_unique :
    (p q : ℕ × ℕ → Bool) (xs : List (ℕ × ℕ))
    → any (λ x. p x && q x) xs ≡ true
    → count p xs ≤ 1
    → count q xs ≤ 1
    → select (λ x. not (q x)) xs ≡ select (λ x. not (p x)) xs
select_unique p q [] h a b = refl
select_unique p q (x ∷ xs) h a b = ground (
  arith,
  h,
  a,
  b,
  select_unique p q xs,
  count-any p q xs,
  select-count_none p xs,
  select-count_none q xs,
  Bool-cases (p x),
  Bool-cases (q x),
)

count-select_le : (p q : ℕ × ℕ → Bool) (xs : List (ℕ × ℕ)) → count p (select q xs) ≤ count p xs
count-select_le p q [] = omega arith
count-select_le p q (x ∷ xs) =
    ground (arith, count-select_le p q xs, Bool-cases (p x), Bool-cases (q x))

length-select_lt : (p : ℕ × ℕ → Bool) (xs : List (ℕ × ℕ)) → length (select p xs) ≤ length xs
length-select_lt p [] = omega arith
length-select_lt p (x ∷ xs) = ground (arith, length-select_lt p xs, Bool-cases (p x))

count-select_call :
    (c call : ℕ) (xs : List (ℕ × ℕ))
    → count (runs c) (select (λ job. not (runs call job)) xs)
      ≡ (if c == call then 0 else count (runs c) xs)
count-select_call c call [] = ground arith
count-select_call c call (x ∷ xs) =
    ground (arith, count-select_call c call xs, Bool-cases (x.1 == call), Bool-cases (x.1 == c))

count-find-none : (id : ℕ) (xs : List (ℕ × ℕ)) → find (is_of id) xs ≡ none → count (is_of id) xs ≡ 0
count-find-none id [] h = refl
count-find-none id (x ∷ xs) h = ground (arith, h, count-find-none id xs, Bool-cases (x.0 == id))

count_le_length : (p : ℕ × ℕ → Bool) (xs : List (ℕ × ℕ)) → count p xs ≤ length xs
count_le_length p [] = omega arith
count_le_length p (x ∷ xs) = ground (arith, count_le_length p xs, Bool-cases (p x))

record IsSound (s : Service) : Type 0 where
  -- Every goroutine is in the map, and the map holds no other call.
  tracked : s.jobs ≡ s.inflight
  limit : s.max_refresh ≡ 64
  bounded : length s.inflight ≤ 64
  single : (id : ℕ) → count (is_of id) s.inflight ≤ 1
  -- A call that was started runs or has been answered, once.
  counted :
      (call : ℕ)
      → count (runs call) s.jobs + count (is_call call) s.answered
        ≡ (if ltb call s.started then 1 else 0)
  drains : s.drained ≡ (if s.closed && (length s.inflight == 0) then 1 else 0)

new_shop-IsSound : IsSound new_shop
unfolding new_shop
new_shop-IsSound = record {
  tracked = refl;
  limit = refl;
  bounded = omega arith;
  single = λ id. omega arith;
  counted = λ call. ground arith;
  drains = refl;
}

refresh-IsSound : (id : ℕ) (s : Service) → IsSound s → IsSound (refresh id s).1
unfolding refresh
refresh-IsSound id s w = record {
  tracked =
      ground (arith, w.tracked, Bool-cases s.closed, Option-cases (find (is_of id) s.inflight));
  limit = ground (arith, w.limit, Bool-cases s.closed, Option-cases (find (is_of id) s.inflight));
  bounded =
      ground
        (arith, w.limit, w.bounded, Bool-cases s.closed, Option-cases (find (is_of id) s.inflight));
  single = λ other. ground (
    arith,
    w.single other,
    count-find-none id s.inflight,
    Bool-cases (id == other),
    Bool-cases s.closed,
    Option-cases (find (is_of id) s.inflight),
  );
  counted = λ call.
      ground
        (arith, w.counted call, Bool-cases s.closed, Option-cases (find (is_of id) s.inflight));
  drains = ground (arith, w.drains, Bool-cases s.closed, Option-cases (find (is_of id) s.inflight));
}

finish-IsSound :
    (id call : ℕ) (outcome : Option (Result Shop)) (s : Service)
    → any (λ (job : ℕ × ℕ). is_of id job && runs call job) s.jobs ≡ true
    → IsSound s
    → IsSound (finish id call outcome s)
unfolding finish
finish-IsSound id call outcome s member w =
    let present = count-any (is_of id) (runs call) s.jobs member in
    let once : count (runs call) s.jobs ≤ 1 = ground (arith, w.counted call) in
    let alone : count (is_of id) s.jobs ≤ 1 = rw (w.tracked) (w.single id) in
    let same : select (λ job. not (runs call job)) s.jobs
        ≡ select (λ job. not (is_of id job)) s.jobs =
      select_unique (is_of id) (runs call) s.jobs member alone once in
    let present_here : 1 ≤ count (is_of id) s.inflight =
      subst (λ l. 1 ≤ count (is_of id) l) w.tracked present.0 in
    let busy : 1 ≤ length s.inflight =
      omega (arith, present_here, count_le_length (is_of id) s.inflight) in
    record {
      tracked = same ∙ ap (without id) w.tracked;
      limit = w.limit;
      bounded =
          omega (arith, w.bounded, length-select_lt (λ entry. not (is_of id entry)) s.inflight);
      single = λ other. omega (
        arith,
        w.single other,
        count-select_le (is_of other) (λ entry. not (is_of id entry)) s.inflight,
      );
      counted = λ c. ground (
        arith,
        w.counted c,
        present,
        once,
        count-select_call c call s.jobs,
        Bool-cases (c == call),
      );
      drains = ground (arith, w.drains, busy, Bool-cases s.closed);
    }

close-IsSound : (s : Service) → IsSound s → IsSound (begin_close s)
unfolding begin_close
close-IsSound s w = record {
  tracked = w.tracked;
  limit = w.limit;
  bounded = w.bounded;
  single = w.single;
  counted = w.counted;
  drains = ground (arith, w.drains, Bool-cases s.closed);
}

Step-IsSound : (s t : Service) → Step s t → IsSound s → IsSound t
Step-IsSound _ _ (requested id s) w = refresh-IsSound id s w
Step-IsSound _ _ (ended id call outcome s member) w = finish-IsSound id call outcome s member w
Step-IsSound _ _ (closing s) w = close-IsSound s w

reach-IsSound : (s : Service) → Reach s → IsSound s
reach-IsSound _ initial = new_shop-IsSound
reach-IsSound _ (next s t r step) = Step-IsSound s t step (reach-IsSound s r)

-- However requests, jobs that end and Close interleave: at most 64 jobs run, at most one of them for
-- each shop, and `drained` has been closed once where the service is closed and no job runs, and
-- never otherwise; so closing it cannot panic, and Close does not return nil before the last job.
pub refreshes_bounded :
    (s : Service) (id : ℕ)
    → Reach s
    → (length s.jobs ≤ 64)
      × (count (is_of id) s.jobs ≤ 1)
      × (s.drained ≡ (if s.closed && (length s.jobs == 0) then 1 else 0))
refreshes_bounded s id r =
    let w = reach-IsSound s r in rw (w.tracked) (w.bounded, w.single id, w.drains)

-- However they interleave, every call that was ever started is either running or has been answered,
-- never both and never twice: no waiter is forgotten, and no `done` channel is closed again.
pub calls_answered_once :
    (s : Service) (call : ℕ)
    → Reach s
    → count (runs call) s.jobs + count (is_call call) s.answered
      ≡ (if ltb call s.started then 1 else 0)
calls_answered_once s call r = (reach-IsSound s r).counted call

-- Requests for the same shop share one refresh: a second request gets the answer of the first, be it
-- a call or a refusal, and changes nothing.
pub refresh_shared : (id : ℕ) (s : Service) → refresh id (refresh id s).1 ≡ refresh id s
unfolding refresh
refresh_shared id s = ground (arith, Bool-cases s.closed, Option-cases (find (is_of id) s.inflight))

-- While a job for the shop runs, in a service that is not closed, a request shares the call of that
-- job and starts nothing.
pub refresh_joins :
    (id : ℕ) (s : Service) (job : ℕ × ℕ)
    → Reach s
    → s.closed ≡ false
    → find (is_of id) s.jobs ≡ some job
    → refresh id s ≡ (ok job.1, s)
unfolding refresh
refresh_joins id s job r open_now found =
    let e = (reach-IsSound s r).tracked in ground (arith, e, open_now, found)
