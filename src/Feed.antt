-- ===== src/Feed.antt =====
-- The feed service (internal/service/feed.go): push to followers, reading by a cursor, rebuilding.
pub mod Store
pub mod Pages
use local_life_go.Prelude.{
  ℕ, suc, ◌+◌, ◌-◌, ◌*◌, ◌≤◌, ◌<◌, ◌≡◌, ◌≢◌, refl, sym, ap, subst, ◌∙◌, ◌⊎◌, inl, inr, Bool, true,
  false, not, ◌&&◌, ◌||◌, Option, none, some, List, [], ◌∷◌, ◌++◌, map, arith, if◌then◌else◌, ltb,
  leb, ◌==◌, Bool-cases, Option-cases, is_some, length, take, drop, select, count, find, any, all,
  All, sort_by, Text, bytes, same_text, same_text_refl, same_text_sound, digits, format_uint,
  is_digit,
}
use local_life_go.Effects.{
  Result, ok, err, M, pure, raise, fail_if, attempt, from_result, map_error, map_result, ◌>>=◌,
  ◌>>◌, Reply, done, failed, unacknowledged, answer, written, query, send, first_row, is_ok,
  is_unacknowledged, Result-cases, Reply-cases, check_context, wrap_error,
}
use local_life_go.AppError.{Kind, Fault, classified, describe, kind_text}
use local_life_go.Prelude.{ℤ, pos, pos_part, is_negative, ltb_ℤ}
use local_life_go.Social.{Blog}
use local_life_go.Social.Blogs.{BlogTools, BlogView, blog_view}

-- internal/model/follow.go; a score is a time in milliseconds, which the guards keep non-negative.
pub record FeedEntry : Type 0 where
  pub blog_id : ℕ
  pub score : ℕ

pub record FeedPage : Type 0 where
  pub items : List BlogView
  pub next_cursor : Text
  pub has_more : Bool

pub record FeedCursor : Type 0 where
  pub snapshot_id : Text
  pub max : ℕ
  pub offset : ℕ

-- What the JSON of a cursor holds: the two numbers are int64 and may be missing.
pub record DecodedCursor : Type 0 where
  pub snapshot_id : Text
  pub max : Option ℤ
  pub offset : Option ℤ

pub record FeedStore (S : Type 0) : Type 0 where
  pub push : List ℕ → FeedEntry → M S (Unit {0})
  pub snapshot : ℕ → M S Text
  pub page : ℕ → Text → ℕ → ℕ → ℕ → M S (List FeedEntry)
  pub replace : ℕ → List FeedEntry → M S (Unit {0})

pub record FeedBlogs (S : Type 0) : Type 0 where
  pub followers : ℕ → ℕ → M S (List ℕ)
  pub visible_by_ids : ℕ → List ℕ → M S (List Blog)
  pub feed_source : ℕ → M S (List Blog)

abbrev pub max_feed_score : ℕ
max_feed_score = 9007199254740991

unfoldable pub feed_error : Fault → Fault
feed_error e = elim (classified e) [ some _ ↦ e | none ↦ Fault.wrap Kind.dependency e ]

-- `^[A-Z2-7]{26}$`
is_base32 : ℕ → Bool
is_base32 c = (leb b'A' c && leb c b'Z') || (leb b'2' c && leb c b'7')

unfoldable pub is_snapshot : Text → Bool
unfolding is_base32
is_snapshot id = (length id == 26) && all is_base32 id

valid_cursor : Text → Option ℤ → Option ℤ → Result FeedCursor
unfolding is_snapshot
valid_cursor id (some max) (some offset) =
    if not (is_snapshot id)
      || is_negative max
      || ltb_ℤ (pos max_feed_score) max
      || is_negative offset
    then err (Fault.new Kind.validation)
    else ok (record { snapshot_id = id; max = pos_part max; offset = pos_part offset })
valid_cursor id _ _ = err (Fault.new Kind.validation)

checked_cursor : Option DecodedCursor → Result FeedCursor
unfolding valid_cursor
checked_cursor none = err (Fault.new Kind.validation)
checked_cursor (some raw) = valid_cursor raw.snapshot_id raw.max raw.offset

-- The loop that counts the entries at the end of a page that have its last score.
unfoldable pub consumed : ℕ → List FeedEntry → ℕ
consumed last [] = 0
consumed last (entry ∷ entries) =
    let n = consumed last entries in if n == length entries && entry.score == last then suc n else n

abbrev pub last_score : ℕ → List FeedEntry → ℕ
last_score default [] = default
last_score default (entry ∷ entries) = last_score entry.score entries

-- Where the next page starts.
unfoldable pub next_cursor : FeedCursor → List FeedEntry → FeedCursor
unfolding consumed
next_cursor position entries =
    let last = last_score position.max entries in
    record {
      snapshot_id = position.snapshot_id;
      max = last;
      offset =
          if last == position.max
          then consumed last entries + position.offset
          else consumed last entries;
    }

-- The map of the rows by identifier: a later row replaces an earlier one.
abbrev pub row_of : ℕ → List Blog → Option Blog
row_of id [] = none
row_of id (row ∷ rows) = elim (row_of id rows) [
  | some later ↦ some later
  | none ↦ if row.id == id then some row else none
]

module _ (tools : BlogTools) where
  unfoldable pub feed_items : List Blog → List FeedEntry → List BlogView
  feed_items rows [] = []
  feed_items rows (entry ∷ entries) = elim (row_of entry.blog_id rows) [
    | some row ↦ blog_view tools row ∷ feed_items rows entries
    | none ↦ feed_items rows entries
  ]

  -- `decode` is the strict base64 and JSON of a cursor, and `encode` its inverse.
  module _ (decode : Text → Option DecodedCursor) (encode : FeedCursor → Text) {S : Type 0}
      (blogs : FeedBlogs S) (store : FeedStore S) where
    unfoldable pub push : Blog → M S (Unit {0})
    unfolding feed_error
    push blog = do
      ids ← blogs.followers blog.user_id blog.created_at
      (if length ids == 0
          then pure tt
          else map_error feed_error
              (store.push ids (record { blog_id = blog.id; score = blog.created_at })))

    unfoldable pub position_of : ℕ → Text → M S FeedCursor
    unfolding checked_cursor feed_error
    position_of user_id cursor =
        if length cursor == 0
        then (do
          snapshot ← map_error feed_error (store.snapshot user_id)
          pure (record { snapshot_id = snapshot; max = max_feed_score; offset = 0 }))
        else if ltb 256 (length cursor)
        then raise (Fault.new Kind.validation)
        else from_result (checked_cursor (decode cursor))

    page_items : ℕ → FeedCursor → Bool → List FeedEntry → M S FeedPage
    unfolding feed_items next_cursor
    page_items user_id position has_more entries =
        if length entries == 0
        then pure (record { items = []; next_cursor = []; has_more = has_more })
        else (do
          rows ← blogs.visible_by_ids user_id (map (λ (entry : FeedEntry). entry.blog_id) entries)
          pure (record {
            items = feed_items rows entries;
            next_cursor = if has_more then encode (next_cursor position entries) else [];
            has_more = has_more;
          }))

    unfoldable pub read : ℕ → Text → ℕ → M S FeedPage
    unfolding position_of page_items feed_error
    read user_id cursor size = do
      fail_if (user_id == 0) (Fault.new Kind.unauthorized)
      fail_if (ltb size 1 || ltb 50 size) (Fault.new Kind.validation)
      position ← position_of user_id cursor
      entries ←
          map_error feed_error
            (store.page user_id position.snapshot_id position.max position.offset (size + 1))
      page_items user_id position (ltb size (length entries))
          (if ltb size (length entries) then take size entries else entries)

    unfoldable pub rebuild : ℕ → M S ℕ
    unfolding feed_error
    rebuild user_id = do
      fail_if (user_id == 0) (Fault.new Kind.validation)
      rows ← blogs.feed_source user_id
      map_error feed_error (
          store.replace user_id
            (map (λ (row : Blog). record { blog_id = row.id; score = row.created_at }) rows))
      pure (length rows)
