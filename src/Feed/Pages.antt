-- ===== src/Feed/Pages.antt =====
-- The pages of a feed: a snapshot is read through its cursors without a gap and without a repetition,
-- also where many entries have one score.
use local_life_go.Prelude.{
  take-all, take-append-drop, length-take, zero, ℕ, suc, ◌+◌, ◌*◌, ◌≤◌, ◌<◌, ◌≡◌, refl, sym, ap,
  subst, ◌∙◌, inl, inr, Bool, false, List, [], ◌∷◌, ◌++◌, arith, if◌then◌else◌, ltb, leb, ◌==◌,
  Bool-cases, length, take, drop, select, count, All, Text,
}
use local_life_go.Paging.Laws.{take-append}
use local_life_go.Feed.{FeedEntry, FeedCursor, max_feed_score, consumed, last_score, next_cursor}
use local_life_go.Feed.Store.{rev_range}
use native.Mathlib.Nat.{suc-mul, zero-mul}
use mathlib.Core.List.{append_assoc}
use native.Mathlib.Numerals.{add-one}

-- The order of ZREVRANGE, as far as scores go.
abbrev pub Falling : List FeedEntry → Type 0
Falling [] = Unit
Falling (entry ∷ entries) =
    All (λ (other : FeedEntry). other.score ≤ entry.score) entries × Falling entries

abbrev scored : ℕ → FeedEntry → Bool
scored n entry = entry.score == n

abbrev Above : ℕ → List FeedEntry → Type 0
Above n = All (λ (entry : FeedEntry). n ≤ entry.score)

abbrev Below : ℕ → List FeedEntry → Type 0
Below n = All (λ (entry : FeedEntry). entry.score ≤ n)

select-Below :
    (n : ℕ) (xs : List FeedEntry)
    → Below n xs
    → select (λ (entry : FeedEntry). leb entry.score n) xs ≡ xs
select-Below n [] w = refl
select-Below n (x ∷ xs) (h, w) = ground (arith, h, select-Below n xs w)

-- What a cursor skips of the entries before it are those of its own score.
drop-select :
    (n : ℕ) (xs ys : List FeedEntry)
    → Above n xs
    → Below n ys
    → drop (count (scored n) xs) (select (λ (entry : FeedEntry). leb entry.score n) (xs ++ ys)) ≡ ys
drop-select n [] ys a b = select-Below n ys b
drop-select n (x ∷ xs) ys (h, a) b =
    let c = count (scored n) xs in
    let kept : List FeedEntry = select (λ (entry : FeedEntry). leb entry.score n) (xs ++ ys) in
    let here = count (scored n) (x ∷ xs) in
    let all_kept : List FeedEntry =
      select (λ (entry : FeedEntry). leb entry.score n) (x ∷ xs ++ ys) in
    elim (Bool-cases (x.score == n)) as (λ _. drop here all_kept ≡ ys) [
      | inl e ↦
          (ap (λ m. drop m all_kept) {x = here} {y = suc c} (ground (arith, e))
            ∙ ap (drop (suc c)) {x = all_kept} {y = x ∷ kept} (ground (arith, e)))
          ∙ drop-select n xs ys a b
      | inr e ↦
          (ap (λ m. drop m all_kept) {x = here} {y = c} (ground (arith, e))
            ∙ ap (drop c) {x = all_kept} {y = kept} (ground (arith, e, h)))
          ∙ drop-select n xs ys a b
    ]

count-append :
    (n : ℕ) (xs ys : List FeedEntry)
    → count (scored n) (xs ++ ys) ≡ count (scored n) xs + count (scored n) ys
count-append n [] ys = omega arith
count-append n (x ∷ xs) ys = ground (arith, count-append n xs ys)

All-left : (n : ℕ) (xs ys : List FeedEntry) → Below n (xs ++ ys) → Below n xs
All-left n [] ys b = tt
All-left n (x ∷ xs) ys (h, b) = (h, All-left n xs ys b)

Above-append : (n : ℕ) (xs ys : List FeedEntry) → Above n xs → Above n ys → Above n (xs ++ ys)
Above-append n [] ys a b = b
Above-append n (x ∷ xs) ys (h, a) b = (h, Above-append n xs ys a b)

Above-weaken : (m n : ℕ) (xs : List FeedEntry) → m ≤ n → Above n xs → Above m xs
Above-weaken m n [] l a = tt
Above-weaken m n (x ∷ xs) l (h, a) = (omega arith, Above-weaken m n xs l a)

count-Above : (m n : ℕ) (xs : List FeedEntry) → m < n → Above n xs → count (scored m) xs ≡ 0
count-Above m n [] l a = refl
count-Above m n (x ∷ xs) l (h, a) = ground (arith, h, l, count-Above m n xs l a)

last_score_le : (d : ℕ) (xs : List FeedEntry) → Falling xs → Below d xs → last_score d xs ≤ d
last_score_le d [] f b = omega arith
last_score_le d (x ∷ xs) (w, f) (h, b) = omega (arith, h, last_score_le x.score xs f w)

-- The last score of a falling list is its lowest.
last_score-Above :
    (d : ℕ) (xs : List FeedEntry) → Falling xs → Below d xs → Above (last_score d xs) xs
last_score-Above d [] f b = tt
last_score-Above d (x ∷ xs) (w, f) (h, b) =
    (last_score_le x.score xs f w, last_score-Above x.score xs f w)

last_score-Below :
    (d : ℕ) (xs ys : List FeedEntry)
    → Falling (xs ++ ys)
    → Below d (xs ++ ys)
    → Below (last_score d xs) ys
last_score-Below d [] ys f b = b
last_score-Below d (x ∷ xs) ys (w, f) (h, b) = last_score-Below x.score xs ys f w

-- At the end of a falling list stand all the entries of its last score.
count_all :
    (n : ℕ) (xs : List FeedEntry) → Above n xs → Below n xs → count (scored n) xs ≡ length xs
count_all n [] a b = refl
count_all n (x ∷ xs) (h, a) (k, b) = ground (arith, h, k, count_all n xs a b)

consumed-eq-count :
    (n : ℕ) (xs : List FeedEntry) → Falling xs → Above n xs → consumed n xs ≡ count (scored n) xs
unfolding consumed
consumed-eq-count n [] f a = refl
consumed-eq-count n (x ∷ xs) (w, f) (h, a) =
    elim (Bool-cases (x.score == n)) as (λ _. consumed n (x ∷ xs) ≡ count (scored n) (x ∷ xs)) [
      | inl e ↦
          let same : x.score ≡ n = ground (arith, e) in
          let b : Below n xs =
            subst (λ s. All (λ (other : FeedEntry). other.score ≤ s) xs) same w in
          ground (arith, e, consumed-eq-count n xs f a, count_all n xs a b)
      | inr e ↦ ground (arith, e, consumed-eq-count n xs f a)
    ]

-- Where a cursor stands in a snapshot: after the entries `seen`, before the entries `ahead`.
record IsAt (seen ahead : List FeedEntry) (position : FeedCursor) : Type 0 where
  above : Above position.max seen
  below : Below position.max ahead
  skips : position.offset ≡ count (scored position.max) seen

-- The first page is read from the top.
start-IsAt :
    (id : Text) (entries : List FeedEntry)
    → Below max_feed_score entries
    → IsAt [] entries (record { snapshot_id = id; max = max_feed_score; offset = 0 })
start-IsAt id entries b = record { above = tt; below = b; skips = refl }

-- What a page shows from there.
range-IsAt :
    (limit : ℕ) (seen ahead : List FeedEntry) (position : FeedCursor)
    → IsAt seen ahead position
    → rev_range position.max position.offset limit (seen ++ ahead) ≡ take limit ahead
range-IsAt limit seen ahead position w =
    ap
      (λ n.
        take limit
          (drop n (select (λ (entry : FeedEntry). leb entry.score position.max) (seen ++ ahead))))
      w.skips
    ∙ ap (take limit) (drop-select position.max seen ahead w.above w.below)

Falling-left : (xs ys : List FeedEntry) → Falling (xs ++ ys) → Falling xs
Falling-left [] ys f = tt
Falling-left (x ∷ xs) ys (w, f) = (All-left x.score xs ys w, Falling-left xs ys f)

next_offset :
    (last : ℕ) (seen page : List FeedEntry) (position : FeedCursor)
    → consumed last page ≡ count (scored last) page
    → last ≤ position.max
    → Above position.max seen
    → position.offset ≡ count (scored position.max) seen
    → (if last == position.max then consumed last page + position.offset else consumed last page)
      ≡ count (scored last) (seen ++ page)
next_offset last seen page position c le a o =
    elim (Bool-cases (last == position.max))
      as (λ _.
        (if last == position.max then consumed last page + position.offset else consumed last page)
        ≡ count (scored last) (seen ++ page)) [
          | inl e ↦
              let same : last ≡ position.max = ground (arith, e) in
              let counts = ap (λ n. count (scored n) seen) same in
              ground (arith, e, c, o, counts, count-append last seen page)
          | inr e ↦
              let low : last < position.max = ground (arith, e, le) in
              ground
                (arith, e, c, count-Above last position.max seen low a, count-append last seen page)
        ]

-- The cursor that a page hands out stands after that page.
next_cursor-IsAt :
    (seen page ahead : List FeedEntry) (position : FeedCursor)
    → Falling (page ++ ahead)
    → IsAt seen (page ++ ahead) position
    → IsAt (seen ++ page) ahead (next_cursor position page)
unfolding next_cursor
next_cursor-IsAt seen page ahead position f w =
    let last = last_score position.max page in
    let falling = Falling-left page ahead f in
    let below_page : Below position.max page = All-left position.max page ahead w.below in
    let le = last_score_le position.max page falling below_page in
    let above_page = last_score-Above position.max page falling below_page in
    record {
      above =
          Above-append last seen page (Above-weaken last position.max seen le w.above) above_page;
      below = last_score-Below position.max page ahead f w.below;
      skips =
          next_offset last seen page position (consumed-eq-count last page falling above_page) le
            w.above w.skips;
    }

-- The entries that a reader sees in some pages, from a cursor on: each page asks for one entry more
-- than it shows, and the next cursor is used where that entry came.
abbrev pub pages_from : ℕ → ℕ → List FeedEntry → FeedCursor → List FeedEntry
pages_from size zero entries position = []
pages_from size (suc n) entries position =
    let rows = rev_range position.max position.offset (size + 1) entries in
    let shown = if ltb size (length rows) then take size rows else rows in
    let rest = pages_from size n entries (next_cursor position shown) in
    if ltb size (length rows) then shown ++ rest else shown

Falling-right : (xs ys : List FeedEntry) → Falling (xs ++ ys) → Falling ys
Falling-right [] ys f = f
Falling-right (x ∷ xs) ys (w, f) = Falling-right xs ys f

-- With a further entry behind it, a page is followed by the pages from its next cursor.
more-IsAt :
    (size n : ℕ) (seen ahead : List FeedEntry) (position : FeedCursor)
    → Falling ahead
    → IsAt seen ahead position
    → ((seen' ahead' : List FeedEntry) (position' : FeedCursor)
        → Falling ahead'
        → IsAt seen' ahead' position'
        → pages_from size n (seen' ++ ahead') position' ≡ take (n * size) ahead')
    → take size ahead ++ pages_from size n (seen ++ ahead) (next_cursor position (take size ahead))
      ≡ take (suc n * size) ahead
more-IsAt size n seen ahead position f w pages =
    let whole = take-append-drop size ahead in
    let f' : Falling (take size ahead ++ drop size ahead) = subst Falling (sym whole) f in
    let w' : IsAt seen (take size ahead ++ drop size ahead) position =
      subst (λ entries. IsAt seen entries position) (sym whole) w in
    let next = next_cursor position (take size ahead) in
    let split : seen ++ ahead ≡ (seen ++ take size ahead) ++ drop size ahead =
      ap (λ entries. seen ++ entries) (sym whole)
      ∙ sym (append_assoc seen (take size ahead) (drop size ahead)) in
    ap (λ entries. take size ahead ++ pages_from size n entries next) split
    ∙ ap (λ entries. take size ahead ++ entries)
        (pages (seen ++ take size ahead) (drop size ahead) next
          (Falling-right (take size ahead) (drop size ahead) f')
          (next_cursor-IsAt seen (take size ahead) (drop size ahead) position f' w'))
    ∙ sym (take-append size (n * size) ahead)
    ∙ ap (λ m. take m ahead) {x = size + n * size} {y = suc n * size} (rw suc-mul (omega arith))

-- What is left is the last page.
last_page :
    (size n : ℕ) (ahead : List FeedEntry)
    → ltb size (length (take (size + 1) ahead)) ≡ false
    → take (size + 1) ahead ≡ take (suc n * size) ahead
last_page size n ahead h =
    let short : length ahead ≤ size = ground (arith, h, length-take (size + 1) ahead) in
    let grows : size ≤ suc n * size = rw (suc-mul) (omega arith) in
    take-all (size + 1) ahead (omega (arith, short))
    ∙ sym (take-all (suc n * size) ahead (omega (arith, short, grows)))

take-take_more : (n : ℕ) (xs : List FeedEntry) → take n (take (suc n) xs) ≡ take n xs
take-take_more zero xs = refl
take-take_more (suc n) [] = refl
take-take_more (suc n) (x ∷ xs) = ap (λ t. x ∷ t) (take-take_more n xs)

trimmed : (size : ℕ) (ahead : List FeedEntry) → take size (take (size + 1) ahead) ≡ take size ahead
trimmed size ahead = rw add-one (take-take_more size ahead)

-- The same from any cursor.
pages_from-IsAt :
    (size n : ℕ) (seen ahead : List FeedEntry) (position : FeedCursor)
    → Falling ahead
    → IsAt seen ahead position
    → pages_from size n (seen ++ ahead) position ≡ take (n * size) ahead
pages_from-IsAt size zero seen ahead position f w = rw zero-mul refl
pages_from-IsAt size (suc n) seen ahead position f w =
    let shows = range-IsAt (size + 1) seen ahead position w in
    elim (Bool-cases (ltb size (length (take (size + 1) ahead)))) [
      | inl e ↦
          rw (shows, e, trimmed size ahead)
            (more-IsAt size n seen ahead position f w (pages_from-IsAt size n))
      | inr e ↦ rw (shows, e) (last_page size n ahead e)
    ]

-- The pages of a snapshot, one after the other, are its entries in order: for a snapshot in the order
-- of its scores, which are at most the largest score, the first n pages show exactly the first
-- n * size entries, however many entries have the same score.
pub pages_from-take :
    (size n : ℕ) (id : Text) (entries : List FeedEntry)
    → Falling entries
    → Below max_feed_score entries
    → pages_from size n entries (record { snapshot_id = id; max = max_feed_score; offset = 0 })
      ≡ take (n * size) entries
pages_from-take size n id entries f b =
    pages_from-IsAt size n [] entries
      (record { snapshot_id = id; max = max_feed_score; offset = 0 }) f (start-IsAt id entries b)
