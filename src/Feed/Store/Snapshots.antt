-- ===== src/Feed/Store/Snapshots.antt =====
-- The snapshots of a feed (Snapshot and Page of internal/cache/feed.go) while the feed goes on.
use local_life_go.Prelude.{
  any, inr, inl, Bool-cases, same_text_refl, digits-format_uint, ==_refl, false, parse_int-digits,
  same_text, format_uint, ◌&&◌, ◌∙◌, some, ◌<◌, leb, ◌==◌, ap, refl, [], zero, suc, ◌∷◌, select,
  length, drop, take, arith, true, ◌≡◌, all, List, Text, Bool, ℕ,
}
use local_life_go.Feed.Store.{
  snapshot_page, replace, page, take_snapshot, push_batches, push_entry, push_all, rev_range,
  valid_feed_entry, SnapshotKeys, Feeds,
}
use local_life_go.Feed.Store.Laws.{push_all-snapshots}
use local_life_go.Feed.{FeedEntry}
use local_life_go.Feed.Store.{Feeds, push_entry}
use local_life_go.Effects.{ok, Reply-cases, done, Reply}

all-select :
    (p q : FeedEntry → Bool) (entries : List FeedEntry)
    → all p entries ≡ true
    → all p (select q entries) ≡ true
all-select p q [] h = refl
all-select p q (x ∷ xs) h = ground (arith, h, all-select p q xs)

all-drop :
    (p : FeedEntry → Bool) (n : ℕ) (entries : List FeedEntry)
    → all p entries ≡ true
    → all p (drop n entries) ≡ true
all-drop p zero entries h = h
all-drop p (suc n) [] h = refl
all-drop p (suc n) (x ∷ xs) h = ground (arith, h, all-drop p n xs)

all-take :
    (p : FeedEntry → Bool) (n : ℕ) (entries : List FeedEntry)
    → all p entries ≡ true
    → all p (take n entries) ≡ true
all-take p zero entries h = refl
all-take p (suc n) [] h = refl
all-take p (suc n) (x ∷ xs) h = ground (arith, h, all-take p n xs)

all-rev_range :
    (max offset limit : ℕ) (entries : List FeedEntry)
    → all valid_feed_entry entries ≡ true
    → all valid_feed_entry (rev_range max offset limit entries) ≡ true
all-rev_range max offset limit entries h =
    let chosen = select (λ (entry : FeedEntry). leb entry.score max) entries in
    all-take valid_feed_entry limit (drop offset chosen) (
      all-drop valid_feed_entry offset chosen
        (all-select valid_feed_entry (λ (entry : FeedEntry). leb entry.score max) entries h))

module _ (member_leb : ℕ → ℕ → Bool) where
  push_batches-snapshots :
      (rounds : ℕ) (replies : ℕ → Reply) (cut : ℕ → ℕ) (entry : FeedEntry) (ids : List ℕ)
      (feeds : Feeds)
      → (push_batches member_leb rounds replies cut entry ids feeds).1.snapshots ≡ feeds.snapshots
  unfolding push_batches
  push_batches-snapshots zero replies cut entry ids feeds = refl
  push_batches-snapshots (suc rounds) replies cut entry ids feeds =
      let batch = take 500 ids in
      elim (Bool-cases (length ids == 0)) [
        | inl empty ↦ rw empty refl
        | inr left ↦ elim (Bool-cases (any (λ id. id == 0) batch)) [
          | inl bad ↦ rw (left, bad) refl
          | inr good ↦ elim (Reply-cases (replies rounds)) [
            | inl answered ↦
                rw (left, good, answered)
                  (push_batches-snapshots rounds replies cut entry (drop 500 ids)
                      (push_all member_leb entry batch feeds)
                    ∙ push_all-snapshots member_leb entry batch feeds)
            | inr (inl (e, failure)) ↦
                rw (left, good, failure)
                  (push_all-snapshots member_leb entry (take (cut rounds) batch) feeds)
            | inr (inr (e, lost)) ↦
                rw (left, good, lost) (push_all-snapshots member_leb entry batch feeds)
          ]
        ]
      ]

  push_entry-snapshots :
      (replies : ℕ → Reply) (cut : ℕ → ℕ) (ids : List ℕ) (entry : FeedEntry) (feeds : Feeds)
      → (push_entry member_leb replies cut ids entry feeds).1.snapshots ≡ feeds.snapshots
  unfolding push_entry
  push_entry-snapshots replies cut ids entry feeds =
      ground (arith, push_batches-snapshots (length ids) replies cut entry ids feeds)

  replace-snapshots :
      (reply : Reply) (user_id : ℕ) (entries : List FeedEntry) (feeds : Feeds)
      → (replace member_leb reply user_id entries feeds).1.snapshots ≡ feeds.snapshots
  unfolding replace
  replace-snapshots reply user_id entries feeds = ground (arith, Reply-cases reply)

-- What may come after a snapshot: pushes and rebuilds with any failures, and snapshots of other users
-- or other names.
pub data Later (member_leb : ℕ → ℕ → Bool) (user : ℕ) (name : Text) (start : Feeds)
    : Feeds → Type 0 where
  at_once : Later member_leb user name start start
  entry_pushed :
      {feeds : Feeds} (replies : ℕ → Reply) (cut : ℕ → ℕ) (ids : List ℕ) (entry : FeedEntry)
      → Later member_leb user name start feeds
      → Later member_leb user name start (push_entry member_leb replies cut ids entry feeds).1
  feed_replaced :
      {feeds : Feeds} (reply : Reply) (user_id : ℕ) (entries : List FeedEntry)
      → Later member_leb user name start feeds
      → Later member_leb user name start (replace member_leb reply user_id entries feeds).1
  snapshot_taken :
      {feeds : Feeds} (reply : Reply) (other : Text) (user_id : ℕ)
      → Later member_leb user name start feeds
      → (user == user_id) && same_text name other ≡ false
      → Later member_leb user name start (take_snapshot reply other user_id feeds).1

taken-snapshots :
    (reply : Reply) (other : Text) (user_id user : ℕ) (name : Text) (feeds : Feeds)
    → (user == user_id) && same_text name other ≡ false
    → (take_snapshot reply other user_id feeds).1.snapshots user name ≡ feeds.snapshots user name
unfolding take_snapshot
taken-snapshots reply other user_id user name feeds apart = ground (arith, apart, Reply-cases reply)

Later-snapshots :
    (member_leb : ℕ → ℕ → Bool) (user : ℕ) (name : Text) {start feeds : Feeds}
    → Later member_leb user name start feeds
    → feeds.snapshots user name ≡ start.snapshots user name
Later-snapshots member_leb user name at_once = refl
Later-snapshots member_leb user name (entry_pushed {feeds} replies cut ids entry past) =
    ap (λ snapshots. snapshots user name)
      (push_entry-snapshots member_leb replies cut ids entry feeds)
    ∙ Later-snapshots member_leb user name past
Later-snapshots member_leb user name (feed_replaced {feeds} reply user_id entries past) =
    ap (λ snapshots. snapshots user name) (replace-snapshots member_leb reply user_id entries feeds)
    ∙ Later-snapshots member_leb user name past
Later-snapshots member_leb user name (snapshot_taken {feeds} reply other user_id past apart) =
    taken-snapshots reply other user_id user name feeds apart
    ∙ Later-snapshots member_leb user name past

snapshot_page-counted :
    (max offset limit : ℕ) (entries : List FeedEntry)
    → all valid_feed_entry entries ≡ true
    → length entries < 9223372036854775808
    → snapshot_page max offset limit entries (some (format_uint (length entries)))
      ≡ ok (rev_range max offset limit entries)
unfolding snapshot_page
snapshot_page-counted max offset limit entries valid short =
    let number =
      parse_int-digits (format_uint (length entries)) (length entries)
        (digits-format_uint (length entries)) short in
    let kept = all-rev_range max offset limit entries valid in rw number (ground (arith, kept))

taken_now :
    (name : Text) (user : ℕ) (feeds : Feeds)
    → (take_snapshot done name user feeds).1.snapshots user name
      ≡ record { entries = feeds.live user; marker = some (format_uint (length (feeds.live user))) }
unfolding take_snapshot
taken_now name user feeds = rw (==_refl user, same_text_refl name) refl

-- A page of a snapshot is a page of the feed as it was when the snapshot was taken, whatever pushes,
-- rebuilds and other snapshots, with any failures, come between, as long as Redis keeps the snapshot
-- and answers the two calls. The entries of the feed are to be valid and their number is to be one of 63 bits.
pub page-take_snapshot :
    (member_leb : ℕ → ℕ → Bool) (name : Text) (user max offset limit : ℕ) (feeds feeds' : Feeds)
    → all valid_feed_entry (feeds.live user) ≡ true
    → length (feeds.live user) < 9223372036854775808
    → Later member_leb user name (take_snapshot done name user feeds).1 feeds'
    → ((take_snapshot done name user feeds).0 ≡ ok name)
      × ((page done user name max offset limit feeds').0
          ≡ ok (rev_range max offset limit (feeds.live user)))
unfolding page take_snapshot
page-take_snapshot member_leb name user max offset limit feeds feeds' valid short past = (
  refl,
  ap (λ (keys : SnapshotKeys). snapshot_page max offset limit keys.entries keys.marker)
        (Later-snapshots member_leb user name past ∙ taken_now name user feeds)
      ∙ snapshot_page-counted max offset limit (feeds.live user) valid short,
)
