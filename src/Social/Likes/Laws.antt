-- ===== src/Social/Likes/Laws.antt =====
-- What a like changes, and what a repeated one does not.
use local_life_go.Prelude.{
  ℕ, ◌+◌, ◌*◌, ◌≤◌, ◌≡◌, refl, Bool, false, not, ◌&&◌, some, List, [], ◌∷◌, arith, if◌then◌else◌,
  ◌==◌, Bool-cases, select, count,
}
use local_life_go.Effects.{ok, M, pure, Reply, done, Reply-cases}
use local_life_go.Social.{Blog, BlogLike, Social}
use local_life_go.Social.Blogs.{likes_of}
use local_life_go.Social.Likes.{
  is_like, set_like_changed, is_liked, like, notify_budget, notify_like,
}

count-unliked :
    (b u : ℕ) (likes : List BlogLike)
    → count (is_like b u) (select (λ l. not (is_like b u l)) likes) ≡ 0
count-unliked b u [] = refl
count-unliked b u (l ∷ likes) = ground (arith, count-unliked b u likes, Bool-cases (is_like b u l))

count-others :
    (b u c v : ℕ) (likes : List BlogLike)
    → count (is_like c v) (select (λ l. not (is_like b u l)) likes) ≤ count (is_like c v) likes
count-others b u c v [] = omega arith
count-others b u c v (l ∷ likes) =
    ground
      (arith, count-others b u c v likes, Bool-cases (is_like b u l), Bool-cases (is_like c v l))

likes_of-unliked :
    (b u : ℕ) (likes : List BlogLike)
    → likes_of b (select (λ l. not (is_like b u l)) likes) + count (is_like b u) likes
      ≡ likes_of b likes
likes_of-unliked b u [] = omega arith
likes_of-unliked b u (l ∷ likes) =
    ground
      (arith, likes_of-unliked b u likes, Bool-cases (l.blog_id == b), Bool-cases (l.user_id == u))

-- After a like or an unlike that succeeds, the user likes the blog or not as was asked, and asking for
-- the same again succeeds, reports no change and changes nothing: no second notification is due.
pub set_like_changed_settles :
    (blog_id user_id : ℕ) (liked changed : Bool) (db : Social)
    → (set_like_changed done blog_id user_id liked db).0 ≡ ok changed
    → ((is_liked done blog_id user_id (set_like_changed done blog_id user_id liked db).1).0
        ≡ ok liked)
      × (set_like_changed done blog_id user_id liked
            (set_like_changed done blog_id user_id liked db).1
          ≡ (ok false, (set_like_changed done blog_id user_id liked db).1))
unfolding set_like_changed is_liked
set_like_changed_settles b u liked changed db h = (
  ground (arith, h, count-unliked b u db.likes, Bool-cases liked),
  ground (arith, h, count-unliked b u db.likes, Bool-cases liked),
)

-- A user likes a blog at most once.
abbrev pub IsOnce : Social → Type 0
IsOnce db = (b u : ℕ) → count (is_like b u) db.likes ≤ 1

-- No call, however its transaction ends, makes a user like a blog twice.
pub set_like_changed-IsOnce :
    (reply : Reply) (blog_id user_id : ℕ) (liked : Bool) (db : Social)
    → IsOnce db
    → IsOnce (set_like_changed reply blog_id user_id liked db).1
unfolding set_like_changed
set_like_changed-IsOnce reply b u liked db w c v = ground (
  arith,
  w c v,
  w b u,
  count-others b u c v db.likes,
  Bool-cases (b == c),
  Bool-cases (u == v),
  Bool-cases liked,
  Reply-cases reply,
)

-- The number of likes that a blog shows follows: where no user likes a blog twice, a call that
-- succeeds adds one to it if it reports a change to liked, takes one off if it reports a change to
-- not liked, and leaves it alone if it reports none.
pub likes_of-set_like_changed :
    (blog_id user_id : ℕ) (liked changed : Bool) (db : Social)
    → IsOnce db
    → (set_like_changed done blog_id user_id liked db).0 ≡ ok changed
    → likes_of blog_id (set_like_changed done blog_id user_id liked db).1.likes
        + (if changed && not liked then 1 else 0)
      ≡ likes_of blog_id db.likes + (if changed && liked then 1 else 0)
unfolding set_like_changed
likes_of-set_like_changed b u liked changed db w h =
    ground (arith, h, w b u, likes_of-unliked b u db.likes, Bool-cases liked)

-- The notification of a like is optional: whatever it does, the like's own result is the same as with
-- no notifier at all; and it is given at most 100 milliseconds, and at most half of what is left of
-- the request's time.
pub like_notification_optional :
    (S : Type 0) (by_id : ℕ → M S Blog) (set_like : ℕ → ℕ → Bool → M S Bool)
    (notify : ℕ → ℕ → ℕ → M S (Unit {0})) (remaining blog_id user_id : ℕ) (liked : Bool) (s : S)
    → ((like by_id set_like notify (some remaining) blog_id user_id liked s).0
        ≡ (like by_id set_like (λ _ _ _. pure tt) (some remaining) blog_id user_id liked s).0)
      × (notify_budget (some remaining) ≤ 100000000)
      × (2 * notify_budget (some remaining) ≤ remaining)
unfolding like notify_like notify_budget
like_notification_optional S by_id set_like notify remaining blog_id user_id liked s =
    (ground arith, ground arith, ground arith)
