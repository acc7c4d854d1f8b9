-- ===== src/Examples/Feeds.antt =====
-- Pages, feeds, vouchers and public errors.
use local_life_go.Prelude.{
  false, place_in, if◌then◌else◌, true, ◌==◌, any, leb, Bool, none, ℕ, ◌*◌, ◌≡◌, refl, List, [],
  ◌∷◌, arith, take,
}
use local_life_go.Effects.{Result, done, ok}
use local_life_go.Feed.{FeedEntry, max_feed_score}
use local_life_go.Feed.Store.{newer, is_member, Feeds, push_entry, valid_feed_entry}
use local_life_go.Prelude.{bytes}
use local_life_go.Effects.{failed}
use local_life_go.AppError.{Fault}
use local_life_go.Feed.Store.{take_snapshot, replace, page, rev_range, add_new}
use local_life_go.Feed.Store.Snapshots.{page-take_snapshot, at_once, feed_replaced, entry_pushed}
use local_life_go.Feed.Store.Laws.{push_entry-all}
use local_life_go.Feed.Pages.{pages_from, pages_from-take}
use local_life_go.Model.{Voucher}
use local_life_go.Voucher.{VoucherTables}

abbrev same : ℕ → ℕ
same n = n

-- Three blogs, two of which are of one moment.
abbrev entries : List FeedEntry
entries =
    record { blog_id = 9; score = 50 }
    ∷ record { blog_id = 8; score = 40 }
    ∷ record { blog_id = 7; score = 40 }
    ∷ []

pages_from-take_example :
    pages_from 2 2 entries (record { snapshot_id = []; max = max_feed_score; offset = 0 })
    ≡ take (2 * 2) entries
pages_from-take_example =
    pages_from-take 2 2 [] entries ((omega arith, (omega arith, tt)), ((omega arith, tt), (tt, tt)))
      (omega arith, (omega arith, (omega arith, tt)))

abbrev coupon : Voucher
coupon = record {
  id = 5;
  shop_id = 3;
  title = [];
  pay_value = 1;
  actual_value = 2;
  created_at = 0;
  updated_at = 0;
}

abbrev stand : VoucherTables
stand = record { vouchers = coupon ∷ []; activities = [] }

abbrev no_feeds : Feeds
no_feeds = record { live = λ _. []; snapshots = λ _ _. record { entries = []; marker = none } }

abbrev as_numbers : ℕ → ℕ → Bool
as_numbers m n = leb m n

abbrev blog_nine : FeedEntry
blog_nine = record { blog_id = 9; score = 50 }

abbrev pushed : Result (Unit {0}) × Feeds
pushed = push_entry as_numbers (λ _. done) (λ _. 0) (7 ∷ 8 ∷ []) blog_nine no_feeds

push_entry-all_example :
    (pushed.0 ≡ ok tt)
    × (pushed.1.snapshots ≡ no_feeds.snapshots)
    × ((user : ℕ)
        → any (λ id. id == user) (7 ∷ 8 ∷ []) ≡ true
        → (any (is_member as_numbers 9) (pushed.1.live user) ≡ true)
          × (pushed.1.live user ≡ (
              if any (is_member as_numbers 9) (no_feeds.live user)
              then no_feeds.live user
              else place_in (newer as_numbers) blog_nine (no_feeds.live user))))
    × ((user : ℕ)
        → any (λ id. id == user) (7 ∷ 8 ∷ []) ≡ false
        → pushed.1.live user ≡ no_feeds.live user)
unfolding valid_feed_entry
push_entry-all_example =
    push_entry-all as_numbers blog_nine (λ _. 0) (7 ∷ 8 ∷ []) no_feeds refl refl

-- The snapshot is read after another push and a rebuild that failed.
abbrev seen : Feeds
seen = (take_snapshot done (bytes "A") 7 pushed.1).1

abbrev gone_on : Feeds
gone_on =
    (replace as_numbers (failed Fault.other) 7 []
      (push_entry as_numbers (λ _. done) (λ _. 0) (7 ∷ []) (record { blog_id = 10; score = 60 })
        seen).1).1

page-take_snapshot_example :
    ((take_snapshot done (bytes "A") 7 pushed.1).0 ≡ ok (bytes "A"))
    × ((page done 7 (bytes "A") 100 0 5 gone_on).0 ≡ ok (rev_range 100 0 5 (pushed.1.live 7)))
unfolding push_entry valid_feed_entry add_new
page-take_snapshot_example =
    page-take_snapshot as_numbers (bytes "A") 7 100 0 5 pushed.1 gone_on refl (omega arith) (
      feed_replaced (failed Fault.other) 7 []
        (entry_pushed (λ _. done) (λ _. 0) (7 ∷ []) (record { blog_id = 10; score = 60 }) at_once))
