-- ===== src/Paging.antt =====
-- Numbered pages, as every list operation of internal/service makes them: the store is asked for
-- one row more than a page holds, and that row only tells that there is a further page.
pub mod Laws
use local_life_go.Prelude.{
  ℕ, ◌+◌, ◌-◌, ◌*◌, Bool, ◌&&◌, ◌||◌, List, map, ltb, leb, length, take, if◌then◌else◌,
}
use local_life_go.Effects.{Result, M, fail_if, pure, ◌>>=◌, ◌>>◌}
use local_life_go.AppError.{Kind, Fault}

pub record Page (A : Type 0) : Type 0 where
  pub items : List A
  pub page : ℕ
  pub page_size : ℕ
  pub has_more : Bool

-- validPage of internal/service/community.go; the other services write the test out, negated.
abbrev pub valid_page : ℕ → ℕ → Bool
valid_page page size = leb 1 page && leb page 1000 && leb 1 size && leb size 50

module _ {A B : Type 0} where
  -- What is made of the rows that came back.
  unfoldable pub page_of : (A → B) → ℕ → ℕ → List A → Page B
  page_of view page size rows = record {
    items = map view (if ltb size (length rows) then take size rows else rows);
    page = page;
    page_size = size;
    has_more = ltb size (length rows);
  }

-- The guard of the list operations.
abbrev pub bad_page : ℕ → ℕ → Bool
bad_page page size = ltb page 1 || ltb 1000 page || ltb size 1 || ltb 50 size
