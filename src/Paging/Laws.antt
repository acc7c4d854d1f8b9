-- ===== src/Paging/Laws.antt =====
-- Numbered pages over a list of rows: no row is skipped, shown twice or shown out of order.
use local_life_go.Prelude.{
  ℕ, zero, suc, ◌+◌, ◌-◌, ◌*◌, ◌≡◌, refl, ap, ◌∙◌, sym, List, [], ◌∷◌, ◌++◌, map, length, take,
  drop, ltb, if◌then◌else◌, arith, length-take, length-drop,
}
use native.Mathlib.Nat.{zero-add, suc-add, suc-mul, zero-mul}
use native.Mathlib.Numerals.{add-one}
use mathlib.Core.List.{map-append}
use local_life_go.Paging.{Page, page_of}

-- OFFSET and LIMIT over the rows that a query selects.
abbrev pub window : {A : Type 0} → ℕ → ℕ → List A → List A
window offset limit rows = take limit (drop offset rows)

-- With the further row cut off, what is left is the page.
module _ {A : Type 0} where
  unfoldable pub trim : ℕ → List A → List A
  trim n xs = if ltb n (length xs) then take n xs else xs

  pub trim-take : (n : ℕ) (xs : List A) → trim n (take (suc n) xs) ≡ take n xs
  unfolding trim
  trim-take zero [] = refl
  trim-take zero (x ∷ xs) = refl
  trim-take (suc n) [] = ground arith
  trim-take (suc n) (x ∷ xs) = ground (arith, trim-take n xs)

  further : (n : ℕ) (xs : List A) → ltb n (length (take (suc n) xs)) ≡ ltb n (length xs)
  further n xs = ground (arith, length-take (suc n) xs)

  take-nil : (n : ℕ) → take n (let none_left : List A = [] in none_left) ≡ []
  take-nil zero = refl
  take-nil (suc n) = refl

  pub take-append : (m n : ℕ) (xs : List A) → take (m + n) xs ≡ take m xs ++ take n (drop m xs)
  take-append zero n xs = rw zero-add
  take-append (suc m) n [] = rw suc-add (sym (take-nil n))
  take-append (suc m) n (x ∷ xs) = rw suc-add (ap (λ t. x ∷ t) (take-append m n xs))

ltb_shift : (a s l : ℕ) → ltb s (l - a) ≡ ltb (a + s) l
ltb_shift a s l = ground arith

offset : (k size : ℕ) → (suc k - 1) * size ≡ k * size
offset k size = ap (λ t. t * size) {x = suc k - 1} {y = k} (omega arith)

module _ {A B : Type 0} (view : A → B) (size : ℕ) (rows : List A) where
  -- The page that a list operation shows of these rows.
  abbrev pub shown : ℕ → Page B
  shown page = page_of view page size (window ((page - 1) * size) (size + 1) rows)

  pub items-shown :
      (page : ℕ) → (shown page).items ≡ map view (window ((page - 1) * size) size rows)
  unfolding page_of
  items-shown page =
      rw add-one (ap (map view) (unfold trim in trim-take size (drop ((page - 1) * size) rows)))

  pub has_more-shown : (k : ℕ) → (shown (suc k)).has_more ≡ ltb (suc k * size) (length rows)
  unfolding page_of
  has_more-shown k =
      rw (add-one, offset k size, suc-mul)
        (further size (drop (k * size) rows)
          ∙ rw (length-drop (k * size) rows) (ltb_shift (k * size) size (length rows)))

  abbrev pub first_pages : ℕ → List B
  first_pages zero = []
  first_pages (suc n) = first_pages n ++ (shown (suc n)).items

  first_pages-eq-take : (n : ℕ) → first_pages n ≡ map view (take (n * size) rows)
  first_pages-eq-take zero = rw zero-mul
  first_pages-eq-take (suc n) =
      rw
        (
          first_pages-eq-take n,
          items-shown (suc n),
          offset n size,
          suc-mul,
          take-append (n * size) size rows,
        )
        (sym (map-append view (take (n * size) rows) (take size (drop (n * size) rows))))

  -- The pages in order, one after the other, are the rows in order: none is left out and none is
  -- shown twice; and a page says that there are more exactly when rows are left behind it.
  pub pages_cover :
      (n : ℕ)
      → (first_pages n ≡ map view (take (n * size) rows))
        × ((shown (suc n)).has_more ≡ ltb (suc n * size) (length rows))
  pages_cover n = (first_pages-eq-take n, has_more-shown n)
