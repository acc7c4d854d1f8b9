-- ===== src/Shop/Store/Laws.antt =====
-- Publication by comparison, and what a later load sees of it.
use local_life_go.Prelude.{
  same_text, ◌/◌, ℕ, ◌+◌, ◌<◌, ◌≡◌, ◌≢◌, refl, ap, true, false, Option, none, some, [], ◌∷◌, arith,
  Option-cases, Text, same_text_refl,
}
use local_life_go.Effects.{ok, Reply, done, Reply-cases}
use local_life_go.Shop.{ShopCacheEntry}
use local_life_go.Shop.Store.{Cells, live, load, compare_and_set, invalidate, put_cell}

put_cell_self :
    (id : ℕ) (cell : Option (Text × ℕ)) (cells : Cells) → put_cell id cell cells id ≡ cell
put_cell_self id cell cells = ground arith

module _ (encode : ShopCacheEntry → Text) (decode : Text → Option (Option ShopCacheEntry)) where
  -- An entry that was published is loaded until its time is over: with a JSON codec that reads back
  -- what it wrote, a publication that reports success is what every load sees whose time is before
  -- the end of the time to live, with the token that the next publication needs.
  pub load-compare_and_set :
      (now id : ℕ) (expected : Text) (row : ShopCacheEntry) (ttl later : ℕ) (cells : Cells)
      → decode (encode row) ≡ some (some row)
      → (compare_and_set encode decode done now id expected row ttl cells).0 ≡ ok true
      → later < now + ttl / 1000000
      → load encode decode done later id
          (compare_and_set encode decode done now id expected row ttl cells).1
        ≡ record { token = encode row; entry = ok (some row) }
  unfolding load compare_and_set
  load-compare_and_set now id expected row ttl later cells c s w =
      ground (arith, c, s, w, Option-cases (live now (cells id)))

  -- A publication is dropped where the cache has moved on: if it reports that it was not made, the
  -- cache is unchanged and its value is not the expected one; and then a load sees another token.
  pub compare_and_set_conflict :
      (now id : ℕ) (expected : Text) (row : ShopCacheEntry) (ttl : ℕ) (cells : Cells)
      → (compare_and_set encode decode done now id expected row ttl cells).0 ≡ ok false
      → ((compare_and_set encode decode done now id expected row ttl cells).1 ≡ cells)
        × ((load encode decode done now id cells).token ≢ expected)
  unfolding load compare_and_set
  compare_and_set_conflict now id expected row ttl cells s =
      ground (arith, s, Option-cases (live now (cells id)), same_text_refl expected)

  compare_and_set-absent :
      (now id : ℕ) (c : ℕ) (cs : Text) (row : ShopCacheEntry) (ttl : ℕ) (reply : Reply)
      (cells : Cells)
      → cells id ≡ none
      → (compare_and_set encode decode reply now id (c ∷ cs) row ttl cells).1 ≡ cells
  unfolding compare_and_set same_text
  compare_and_set-absent now id c cs row ttl reply cells e =
      ground (arith, e, ap (live now) e, Reply-cases reply)

  -- An update is not undone by a rebuild that read the cache before it: once the entry of a shop is
  -- invalidated, a publication that expects an entry changes nothing, whatever its reply.
  pub invalidate_fences :
      (now id : ℕ) (expected : Text) (row : ShopCacheEntry) (ttl : ℕ) (reply : Reply)
      (cells : Cells)
      → expected ≢ []
      → (compare_and_set encode decode reply now id expected row ttl (invalidate done id cells).1).1
        ≡ (invalidate done id cells).1
  unfolding invalidate
  invalidate_fences now id [] row ttl reply cells n = absurd (n refl)
  invalidate_fences now id (c ∷ cs) row ttl reply cells n =
      compare_and_set-absent now id c cs row ttl reply (put_cell id none cells)
        (put_cell_self id none cells)
