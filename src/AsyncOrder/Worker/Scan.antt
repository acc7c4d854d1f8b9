-- ===== src/AsyncOrder/Worker/Scan.antt =====
-- How the scan of internal/service/seckill_worker.go goes round the active activities, page by page.
use local_life_go.AsyncOrder.Repository.{active_ids}
use native.Mathlib.Decide.{dec_lt}
use local_life_go.Prelude.{
  ◌/◌, lt→ltb, take-append-drop, length-drop, drop, take-all, length-take, subst, sym, take, ◌&&◌,
  ◌*◌, Bool, map, ◌++◌, length, refl, ap, ◌∙◌, if◌then◌else◌, arith, place_in, ◌≡◌, ◌≤◌, leb, ◌==◌,
  ltb, [], count, All, select, ◌∷◌, sort_by, ◌<◌, List, ℕ, zero, suc, ◌+◌,
}
use local_life_go.AsyncOrder.Worker.{next_after, page_limit, last_or}
use local_life_go.Model.{SeckillVoucher}
use local_life_go.Database.{quiet, is_activity, Database}
use local_life_go.Effects.{Result, err, ok}
use local_life_go.Database.Laws.{IsConsistent}
use mathlib.Core.List.{append_assoc, append-nil}

-- Each number is greater than the one before, the first than `a`.
abbrev Ascending : ℕ → List ℕ → Type 0
Ascending a [] = Unit
Ascending a (x ∷ xs) = (a < x) × Ascending x xs

abbrev sort : List ℕ → List ℕ
sort = sort_by leb

count-place_in :
    (n x : ℕ) (ys : List ℕ)
    → count (λ y. y == n) (place_in leb x ys) ≡ (if x == n then 1 else 0) + count (λ y. y == n) ys
count-place_in n x [] = refl
count-place_in n x (y ∷ ys) = ground (arith, count-place_in n x ys)

count-sort : (n : ℕ) (xs : List ℕ) → count (λ y. y == n) (sort xs) ≡ count (λ y. y == n) xs
count-sort n [] = refl
count-sort n (x ∷ xs) =
    count-place_in n x (sort xs) ∙ ap (λ (t : ℕ). (if x == n then 1 else 0) + t) (count-sort n xs)

place_in-Ascending :
    (a x : ℕ) (ys : List ℕ)
    → a < x
    → count (λ y. y == x) ys ≤ 0
    → Ascending a ys
    → Ascending a (place_in leb x ys)
place_in-Ascending a x [] h n s = ground arith
place_in-Ascending a x (y ∷ ys) h n s = ground (arith, place_in-Ascending y x ys)

-- Distinct positive numbers, sorted.
sort-Ascending :
    (xs : List ℕ)
    → All (λ x. 0 < x) xs
    → ((n : ℕ) → count (λ y. y == n) xs ≤ 1)
    → Ascending 0 (sort xs)
sort-Ascending [] p u = tt
sort-Ascending (x ∷ xs) p u =
    place_in-Ascending 0 x (sort xs) p.0 (ground (arith, u x, count-sort x xs))
      (sort-Ascending xs p.1 (λ n. ground (arith, u n)))

-- The numbers above `b` stay together.
select-place_in :
    (b x : ℕ) (ys : List ℕ)
    → select (ltb b) (place_in leb x ys)
      ≡ (if ltb b x then place_in leb x (select (ltb b) ys) else select (ltb b) ys)
select-place_in b x [] = refl
select-place_in b x (y ∷ ys) = ground (arith, select-place_in b x ys)

select-sort : (b : ℕ) (xs : List ℕ) → select (ltb b) (sort xs) ≡ sort (select (ltb b) xs)
select-sort b [] = refl
select-sort b (x ∷ xs) = ground (arith, select-place_in b x (sort xs), select-sort b xs)

select-Ascending : (a b : ℕ) (xs : List ℕ) → b ≤ a → Ascending a xs → select (ltb b) xs ≡ xs
select-Ascending a b [] h s = refl
select-Ascending a b (x ∷ xs) h s = ground (arith, select-Ascending x b xs)

-- What lies above the last number of a part is the rest.
select-append :
    (a : ℕ) (xs ys : List ℕ)
    → Ascending a (xs ++ ys)
    → (a ≤ last_or a xs) × (select (ltb (last_or a xs)) (xs ++ ys) ≡ ys)
select-append a [] ys s = (omega arith, select-Ascending a a ys (omega arith) s)
select-append a (x ∷ xs) ys s =
    let (low, above) = select-append x xs ys s.1 in (ground arith, ground arith)

last_or-append : (a : ℕ) (xs ys : List ℕ) → last_or a (xs ++ ys) ≡ last_or (last_or a xs) ys
last_or-append a [] ys = refl
last_or-append a (x ∷ xs) ys = last_or-append x xs ys

last_or-nonempty : (a b : ℕ) (ys : List ℕ) → 0 < length ys → last_or a ys ≡ last_or b ys
last_or-nonempty a b [] h = absurd (omega arith)
last_or-nonempty a b (y ∷ ys) h = refl

abbrev key : SeckillVoucher → ℕ
key row = row.voucher_id

abbrev is_active : SeckillVoucher → Bool
is_active row = row.async_state == 2

-- The active activities in the order of their keys.
abbrev pub active_keys : Database → List ℕ
active_keys db = sort (map key (select is_active db.activities))

map-place_in :
    (row : SeckillVoucher) (rows : List SeckillVoucher)
    → map key (place_in (λ a b. leb (key a) (key b)) row rows)
      ≡ place_in leb (key row) (map key rows)
map-place_in row [] = refl
map-place_in row (first ∷ rows) = ground (arith, map-place_in row rows)

map-sort_by :
    (rows : List SeckillVoucher)
    → map key (sort_by (λ a b. leb (key a) (key b)) rows) ≡ sort (map key rows)
map-sort_by [] = refl
map-sort_by (row ∷ rows) =
    map-place_in row (sort_by (λ a b. leb (key a) (key b)) rows)
    ∙ ap (place_in leb (key row)) (map-sort_by rows)

map-select :
    (b : ℕ) (rows : List SeckillVoucher)
    → map key (select (λ row. is_active row && ltb b (key row)) rows)
      ≡ select (ltb b) (map key (select is_active rows))
map-select b [] = refl
map-select b (row ∷ rows) = ground (arith, map-select b rows)

-- A page of the scan.
active_ids-eq-take :
    (after limit : ℕ) (db : Database)
    → (active_ids quiet after limit db).0 ≡ ok (take limit (select (ltb after) (active_keys db)))
unfolding active_ids
active_ids-eq-take after limit db =
    ap (λ ids. ok (take limit ids))
      (map-sort_by (select (λ row. is_active row && ltb after (key row)) db.activities)
        ∙ ap sort (map-select after db.activities)
        ∙ sym (select-sort after (map key (select is_active db.activities))))

count-select :
    (n : ℕ) (rows : List SeckillVoucher)
    → count (λ y. y == n) (map key (select is_active rows)) ≤ count (is_activity n) rows
count-select n [] = omega arith
count-select n (row ∷ rows) = ground (arith, count-select n rows)

All-select :
    (rows : List SeckillVoucher)
    → All (λ row. 0 < row.voucher_id) rows
    → All (λ x. 0 < x) (map key (select is_active rows))
All-select [] p = tt
All-select (row ∷ rows) p = ground (arith, All-select rows)

abbrev joined : (ℕ → List ℕ × ℕ) → Result (List ℕ) → List ℕ × ℕ
joined more (ok ids) = let (rest, last) = more (next_after ids) in (ids ++ rest, last)
joined more (err _) = ([], 0)

-- What so many scans of the same tables give one after the other, and the cursor after them.
abbrev pub scans : ℕ → ℕ → Database → List ℕ × ℕ
scans zero after db = ([], after)
scans (suc n) after db = joined (λ next. scans n next db) (active_ids quiet after page_limit db).0

page-rest :
    (db : Database) (before rest : List ℕ)
    → Ascending 0 (active_keys db)
    → active_keys db ≡ before ++ rest
    → (active_ids quiet (last_or 0 before) page_limit db).0 ≡ ok (take page_limit rest)
page-rest db before rest s e =
    active_ids-eq-take (last_or 0 before) page_limit db
    ∙ ap (λ ids. ok (take page_limit (select (ltb (last_or 0 before)) ids))) e
    ∙ ap (λ ids. ok (take page_limit ids)) (select-append 0 before rest (subst (Ascending 0) e s)).1

next_after-long :
    (before rest : List ℕ)
    → ¬ (length rest < 100)
    → next_after (take page_limit rest) ≡ last_or 0 (before ++ take page_limit rest)
unfolding next_after
next_after-long before rest long = rw (last_or-append 0 before (take page_limit rest)) (
    ground (
      arith,
      length-take page_limit rest,
      last_or-nonempty 0 (last_or 0 before) (take page_limit rest),
    ))

scans-rest :
    (n : ℕ) (db : Database) (before rest : List ℕ)
    → Ascending 0 (active_keys db)
    → active_keys db ≡ before ++ rest
    → length rest < n * 100
    → n * 100 ≤ length rest + 100
    → scans n (last_or 0 before) db ≡ (rest, 0)
unfolding next_after
scans-rest zero db before rest s e h k = absurd (omega arith)
scans-rest (suc n) db before rest s e h k =
    ap (joined (λ next. scans n next db)) (page-rest db before rest s e)
    ∙ (elim (dec_lt (length rest) 100) [
      | yes short ↦
          let last : n ≡ 0 = omega arith in
          rw (last, take-all page_limit rest (omega arith))
            (rw (append-nil rest, lt→ltb (length rest) 100 short) refl)
      | no long ↦
          rw
            (
              next_after-long before rest long,
              scans-rest n db (before ++ take page_limit rest) (drop page_limit rest) s
                  (e
                    ∙ ap (λ t. before ++ t) (sym (take-append-drop page_limit rest))
                    ∙ sym (append_assoc before (take page_limit rest) (drop page_limit rest)))
                  (omega (arith, length-drop page_limit rest))
                  (omega (arith, length-drop page_limit rest)),
            )
            (ap (λ l. (l, 0)) (take-append-drop page_limit rest))
    ])

-- The scan goes round: on tables whose activities have different, positive keys, as many scans as
-- there are pages of 100 give every active activity, each once and in the order of the keys, and
-- then begin again.
pub scans-active_keys :
    (db : Database) (capacity : ℕ → ℕ)
    → IsConsistent capacity db
    → All (λ row. 0 < row.voucher_id) db.activities
    → scans (length (active_keys db) / 100 + 1) 0 db ≡ (active_keys db, 0)
scans-active_keys db capacity c p =
    scans-rest (length (active_keys db) / 100 + 1) db [] (active_keys db)
      (sort-Ascending (map key (select is_active db.activities)) (All-select db.activities p)
        (λ n. omega (arith, count-select n db.activities, c.keys n)))
      refl (omega arith) (omega arith)
