-- ===== src/Social/Likes.antt =====
-- Likes (Like and LikeState of internal/service/blog.go, SetLikeChanged and DeleteBlog of
-- internal/repository/community.go, IsLiked of internal/repository/blog.go).
pub mod Laws
use local_life_go.Prelude.{
  ◌/◌, ℕ, suc, ◌+◌, ◌-◌, ◌*◌, ◌≤◌, ◌<◌, ◌≡◌, ◌≢◌, refl, sym, ap, subst, ◌∙◌, ◌⊎◌, inl, inr, Bool,
  true, false, not, ◌&&◌, ◌||◌, Option, none, some, List, [], ◌∷◌, ◌++◌, map, arith, if◌then◌else◌,
  ltb, leb, ◌==◌, Bool-cases, Option-cases, is_some, length, take, drop, select, count, find, any,
  all, All, sort_by, Text, bytes, same_text, same_text_refl, same_text_sound, digits, format_uint,
  is_digit,
}
use local_life_go.Effects.{
  Result, ok, err, M, pure, raise, fail_if, attempt, from_result, map_error, map_result, ◌>>=◌,
  ◌>>◌, Reply, done, failed, unacknowledged, answer, written, query, send, first_row, is_ok,
  is_unacknowledged, Result-cases, Reply-cases, check_context, wrap_error,
}
use local_life_go.AppError.{Kind, Fault, classified, describe, kind_text}
use local_life_go.Paging.{Page, page_of, bad_page, valid_page}
use local_life_go.Paging.Laws.{window}
use local_life_go.Auth.{User, PublicUser, public_user}
use local_life_go.Social.{
  Blog, BlogLike, Follow, Social, in_transaction, blog_error, follow_error, user_row, has_user,
}

abbrev pub is_like : ℕ → ℕ → BlogLike → Bool
is_like blog_id user_id like = like.blog_id == blog_id && like.user_id == user_id

abbrev pub has_blog : ℕ → Social → Bool
has_blog id db = any (λ (row : Blog). row.id == id) db.blogs

abbrev with_likes : List BlogLike → Social → Social
with_likes rows db = record {
  users = db.users;
  shops = db.shops;
  blogs = db.blogs;
  likes = rows;
  follows = db.follows;
  next_id = db.next_id;
  clock = db.clock;
}

insert_like : ℕ → ℕ → M Social Bool
insert_like blog_id user_id db =
    if has_user user_id db
    then (
      ok true,
      with_likes (record { blog_id = blog_id; user_id = user_id; created_at = db.clock } ∷ db.likes)
          db,
    )
    else (err Fault.foreign_key_violated, db)

delete_like : ℕ → ℕ → M Social Bool
delete_like blog_id user_id db =
    (ok true, with_likes (select (λ like. not (is_like blog_id user_id like)) db.likes) db)

-- The function of the transaction; its result tells whether something was changed.
change_like : ℕ → ℕ → Bool → M Social Bool
unfolding insert_like delete_like
change_like blog_id user_id liked db =
    if not (has_blog blog_id db)
    then (err Fault.record_not_found, db)
    else if ltb 0 (count (is_like blog_id user_id) db.likes)
    then if liked then (ok false, db) else delete_like blog_id user_id db
    else if liked
    then insert_like blog_id user_id db
    else (ok false, db)

unfoldable pub set_like_changed : Reply → ℕ → ℕ → Bool → M Social Bool
unfolding change_like blog_error
set_like_changed reply blog_id user_id liked =
    map_error blog_error (in_transaction reply (change_like blog_id user_id liked))

unfoldable pub is_liked : Reply → ℕ → ℕ → M Social Bool
unfolding blog_error
is_liked reply blog_id user_id =
    map_error blog_error (query reply (λ db. ok (ltb 0 (count (is_like blog_id user_id) db.likes))))

remove_blog : ℕ → ℕ → M Social (Unit {0})
remove_blog id user_id db =
    if any (λ (row : Blog). row.id == id && row.user_id == user_id) db.blogs
    then (
      ok tt,
      record {
        users = db.users;
        shops = db.shops;
        blogs = select (λ (row : Blog). not (row.id == id)) db.blogs;
        likes = select (λ (like : BlogLike). not (like.blog_id == id)) db.likes;
        follows = db.follows;
        next_id = db.next_id;
        clock = db.clock;
      },
    )
    else (err Fault.record_not_found, db)

unfoldable pub delete_blog : Reply → ℕ → ℕ → M Social (Unit {0})
unfolding remove_blog blog_error
delete_blog reply id user_id = map_error blog_error (in_transaction reply (remove_blog id user_id))

-- internal/service/blog.go; `author` is what Detail gives of the blog, and `notify` is notifyLike,
-- whose outcome does not count. What is left of the request's deadline is `remaining`, if it has one,
-- in nanoseconds.
abbrev has_time : Option ℕ → Bool
has_time none = true
has_time (some remaining) = not (ltb remaining 20000000)

unfoldable pub notify_budget : Option ℕ → ℕ
notify_budget none = 100000000
notify_budget (some remaining) = if leb 100000000 (remaining / 2) then 100000000 else remaining / 2

module _ {S : Type 0} where
  unfoldable pub notify_like : Option ℕ → (ℕ → M S (Unit {0})) → M S (Unit {0})
  unfolding notify_budget
  notify_like remaining notify s =
      if has_time remaining then (ok tt, (notify (notify_budget remaining) s).1) else (ok tt, s)

  unfoldable pub like :
      (ℕ → M S Blog)
      → (ℕ → ℕ → Bool → M S Bool)
      → (ℕ → ℕ → ℕ → M S (Unit {0}))
      → Option ℕ
      → ℕ
      → ℕ
      → Bool
      → M S Bool
  unfolding notify_like
  like by_id set_like notify remaining blog_id user_id liked = do
    fail_if (user_id == 0) (Fault.new Kind.unauthorized)
    fail_if (blog_id == 0) (Fault.new Kind.validation)
    row ← by_id blog_id
    changed ← set_like blog_id user_id liked
    (if changed && liked && not (user_id == row.user_id)
        then notify_like remaining (notify user_id row.user_id)
        else pure tt)
    pure liked

  unfoldable pub like_state : (ℕ → M S Blog) → (ℕ → ℕ → M S Bool) → ℕ → ℕ → M S Bool
  like_state by_id liked_by blog_id user_id = do
    fail_if (user_id == 0) (Fault.new Kind.unauthorized)
    fail_if (blog_id == 0) (Fault.new Kind.validation)
    by_id blog_id
    liked_by blog_id user_id
