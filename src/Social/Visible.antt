-- ===== src/Social/Visible.antt =====
-- The blogs of those whom a user follows, from the time he followed them (VisibleByIDs and FeedSource of
-- internal/repository/follow.go), as the feed asks for them.
use local_life_go.Prelude.{ℕ, Bool, ◌&&◌, List, [], ◌∷◌, map, leb, ◌==◌, select, any, sort_by}
use local_life_go.Effects.{ok, M, pure, map_error, Reply, query}
use local_life_go.Social.{Blog, Follow, Social, follow_error}
use local_life_go.Social.Blogs.{joined_blogs}

-- JOIN follow f ON …
unfoldable pub is_visible : Social → ℕ → Blog → Bool
is_visible db user_id blog =
    any
      (λ (f : Follow).
        f.follow_user_id == blog.user_id
        && f.user_id == user_id
        && leb f.created_at blog.created_at)
      db.follows

unfoldable pub visible_by_ids : Reply → ℕ → List ℕ → M Social (List Blog)
unfolding is_visible joined_blogs follow_error
visible_by_ids reply user_id [] = pure []
visible_by_ids reply user_id (id ∷ ids) = map_error follow_error (
    query reply (λ db. ok (
      select
        (λ (blog : Blog). is_visible db user_id blog && any (λ other. blog.id == other) (id ∷ ids))
        (joined_blogs db db.blogs))))

-- Only three columns are selected.
abbrev source_columns : Blog → Blog
source_columns blog = record {
  id = blog.id;
  user_id = blog.user_id;
  shop_id = 0;
  title = [];
  content = [];
  images = [];
  created_at = blog.created_at;
  nickname = [];
  avatar = [];
  like_count = 0;
}

unfoldable pub feed_source : Reply → ℕ → M Social (List Blog)
unfolding is_visible follow_error
feed_source reply user_id = map_error follow_error (
    query reply (λ db. ok (
      map source_columns
        (sort_by (λ (a b : Blog). leb a.id b.id) (select (is_visible db user_id) db.blogs)))))
