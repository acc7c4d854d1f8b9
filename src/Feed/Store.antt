-- ===== src/Feed/Store.antt =====
-- The feeds in Redis (internal/cache/feed.go and its scripts). A sorted set is a list of members with
-- their scores, kept in the order in which ZREVRANGE gives them; a member is the blog's number.
pub mod Laws
pub mod Snapshots
use local_life_go.Prelude.{
  place_in, zero, ℕ, suc, Bool, not, ◌&&◌, ◌||◌, Option, none, some, List, [], ◌∷◌, if◌then◌else◌,
  ltb, leb, ◌==◌, length, take, drop, select, any, all, Text, same_text, format_uint, parse_int, ℤ,
  pos, negsuc,
}
use local_life_go.Effects.{
  Result, ok, err, M, fail_if, ◌>>◌, Reply, done, failed, unacknowledged, query, send,
}
use local_life_go.AppError.{Kind, Fault}
use local_life_go.Paging.Laws.{window}
use local_life_go.Feed.{FeedEntry, max_feed_score}

-- The two keys of a snapshot; a sorted set that is not there is an empty one.
pub record SnapshotKeys : Type 0 where
  pub entries : List FeedEntry
  pub marker : Option Text

pub record Feeds : Type 0 where
  pub live : ℕ → List FeedEntry
  pub snapshots : ℕ → Text → SnapshotKeys

unfoldable pub valid_feed_entry : FeedEntry → Bool
valid_feed_entry entry = ltb 0 entry.blog_id && leb entry.score max_feed_score

-- lua/feed_snapshot.lua; `id` is the random name.
unfoldable pub take_snapshot : Reply → Text → ℕ → M Feeds Text
take_snapshot reply id user_id = send reply (λ feeds. (
  ok id,
  record {
    live = feeds.live;
    snapshots = λ user name.
        if user == user_id && same_text name id
        then record {
          entries = feeds.live user_id;
          marker = some (format_uint (length (feeds.live user_id)));
        }
        else feeds.snapshots user name;
  },
))

-- ZREVRANGEBYSCORE from a maximum, with OFFSET and LIMIT.
abbrev pub rev_range : ℕ → ℕ → ℕ → List FeedEntry → List FeedEntry
rev_range max offset limit entries =
    window offset limit (select (λ (entry : FeedEntry). leb entry.score max) entries)

-- What is read once the count fits.
read_page : ℕ → ℕ → ℕ → List FeedEntry → Result (List FeedEntry)
read_page max offset limit entries =
    if all valid_feed_entry (rev_range max offset limit entries)
    then ok (rev_range max offset limit entries)
    else err Fault.other

counted_page : ℕ → ℕ → ℕ → List FeedEntry → Option ℤ → Result (List FeedEntry)
unfolding read_page
counted_page max offset limit entries none = err Fault.other
counted_page max offset limit entries (some (negsuc _)) = err Fault.other
counted_page max offset limit entries (some (pos expected)) =
    if length entries == expected
    then read_page max offset limit entries
    else err (Fault.new Kind.conflict)

snapshot_page : ℕ → ℕ → ℕ → List FeedEntry → Option Text → Result (List FeedEntry)
unfolding counted_page
snapshot_page max offset limit entries none = err (Fault.new Kind.conflict)
snapshot_page max offset limit entries (some marker) =
    counted_page max offset limit entries (parse_int marker)

-- One transaction of Redis: GET, ZCARD and ZREVRANGEBYSCORE. A marker that is not there is redis.Nil.
unfoldable pub page : Reply → ℕ → Text → ℕ → ℕ → ℕ → M Feeds (List FeedEntry)
unfolding snapshot_page
page reply user_id snapshot max offset limit = query reply (λ feeds.
    snapshot_page max offset limit (feeds.snapshots user_id snapshot).entries
      (feeds.snapshots user_id snapshot).marker)

-- ZREVRANGE orders by score and then by member, both falling. The members of equal score are compared
-- as texts: `member_leb` is that order.
module _ (member_leb : ℕ → ℕ → Bool) where
  abbrev pub newer : FeedEntry → FeedEntry → Bool
  newer a b = ltb b.score a.score || (a.score == b.score && member_leb b.blog_id a.blog_id)

  abbrev pub is_member : ℕ → FeedEntry → Bool
  is_member id entry = entry.blog_id == id

  -- ZADD NX
  unfoldable pub add_new : FeedEntry → List FeedEntry → List FeedEntry
  add_new entry entries =
      if any (is_member entry.blog_id) entries then entries else place_in newer entry entries

  -- ZADD: an entry replaces the one with the same member.
  unfoldable pub add : FeedEntry → List FeedEntry → List FeedEntry
  add entry entries =
      place_in newer entry (select (λ other. not (is_member entry.blog_id other)) entries)

  abbrev pub set_live : ℕ → List FeedEntry → Feeds → Feeds
  set_live user_id entries feeds = record {
    live = λ other. if other == user_id then entries else feeds.live other;
    snapshots = feeds.snapshots;
  }

  pub push_all : FeedEntry → List ℕ → Feeds → Feeds
  unfolding add_new
  push_all entry [] feeds = feeds
  push_all entry (id ∷ ids) feeds =
      push_all entry ids (set_live id (add_new entry (feeds.live id)) feeds)

  -- One pipeline of at most 500 recipients, and then the others; `replies` are the replies to the
  -- pipelines, and a pipeline is not atomic: `cut` of its commands have run when it fails. As many
  -- rounds as recipients are enough, since a round takes 500 of them.
  push_batches : ℕ → (ℕ → Reply) → (ℕ → ℕ) → FeedEntry → List ℕ → M Feeds (Unit {0})
  unfolding push_all
  push_batches zero replies cut entry ids feeds = (ok tt, feeds)
  push_batches (suc rounds) replies cut entry ids feeds =
      let later =
        push_batches rounds replies cut entry (drop 500 ids)
          (push_all entry (take 500 ids) feeds) in
      if length ids == 0
      then (ok tt, feeds)
      else if any (λ id. id == 0) (take 500 ids)
      then (err Fault.other, feeds)
      else elim (replies rounds) [
        | done ↦ later
        | failed e ↦ (err e, push_all entry (take (cut rounds) (take 500 ids)) feeds)
        | unacknowledged e ↦ (err e, push_all entry (take 500 ids) feeds)
      ]

  unfoldable pub push_entry : (ℕ → Reply) → (ℕ → ℕ) → List ℕ → FeedEntry → M Feeds (Unit {0})
  unfolding push_batches valid_feed_entry
  push_entry replies cut ids entry = do
    fail_if (not (valid_feed_entry entry)) Fault.other
    push_batches (length ids) replies cut entry ids

  built : List FeedEntry → List FeedEntry → List FeedEntry
  unfolding add
  built [] entries = entries
  built (entry ∷ rest) entries = built rest (add entry entries)

  -- The batches go to a temporary key, so only lua/feed_replace.lua, which wants as many members as
  -- entries, changes the feed; `reply` is what becomes of the whole.
  replace_live : ℕ → List FeedEntry → M Feeds (Unit {0})
  unfolding built
  replace_live user_id entries feeds =
      if length (built entries []) == length entries
      then (ok tt, set_live user_id (built entries []) feeds)
      else (err Fault.other, feeds)

  unfoldable pub replace : Reply → ℕ → List FeedEntry → M Feeds (Unit {0})
  unfolding replace_live
  replace reply user_id entries = do
    fail_if (user_id == 0 || not (all valid_feed_entry entries)) Fault.other
    send reply (replace_live user_id entries)
