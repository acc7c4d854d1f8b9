-- ===== src/Social/Follows.antt =====
-- Follows (internal/service/follow.go and internal/repository/follow.go).
pub mod Laws
use local_life_go.Prelude.{
  ℕ, suc, ◌+◌, ◌-◌, ◌*◌, ◌≤◌, ◌<◌, ◌≡◌, ◌≢◌, refl, sym, ap, subst, ◌∙◌, ◌⊎◌, inl, inr, Bool, true,
  false, not, ◌&&◌, ◌||◌, Option, none, some, List, [], ◌∷◌, ◌++◌, map, arith, if◌then◌else◌, ltb,
  leb, ◌==◌, Bool-cases, Option-cases, is_some, length, take, drop, select, count, find, any, all,
  All, sort_by, Text, bytes, same_text, same_text_refl, same_text_sound, digits, format_uint,
  is_digit,
}
use local_life_go.Effects.{
  Result, ok, err, M, pure, raise, fail_if, attempt, from_result, map_error, map_result, ◌>>=◌,
  ◌>>◌, Reply, done, failed, unacknowledged, answer, written, query, send, first_row, is_ok,
  is_unacknowledged, Result-cases, Reply-cases, check_context, wrap_error,
}
use local_life_go.AppError.{Kind, Fault, classified, describe, kind_text}
use local_life_go.Paging.{Page, page_of, bad_page, valid_page}
use local_life_go.Paging.Laws.{window}
use local_life_go.Auth.{User, PublicUser, public_user}
use local_life_go.Social.{
  Blog, BlogLike, Follow, Social, in_transaction, blog_error, follow_error, user_row, has_user,
}

abbrev pub follows_user : ℕ → ℕ → Follow → Bool
follows_user user_id target_id row = row.user_id == user_id && row.follow_user_id == target_id

abbrev with_follows : List Follow → ℕ → Social → Social
with_follows rows next db = record {
  users = db.users;
  shops = db.shops;
  blogs = db.blogs;
  likes = db.likes;
  follows = rows;
  next_id = next;
  clock = db.clock;
}

-- INSERT … ON DUPLICATE KEY that does nothing, with the keys of the table and its check that nobody follows himself.
insert_follow : ℕ → ℕ → M Social (Unit {0})
insert_follow user_id target_id db =
    if user_id == target_id
    then (err Fault.other, db)
    else if not (has_user user_id db) || not (has_user target_id db)
    then (err Fault.foreign_key_violated, db)
    else if any (follows_user user_id target_id) db.follows
    then (ok tt, db)
    else (
      ok tt,
      with_follows
          (record {
            id = db.next_id;
            user_id = user_id;
            follow_user_id = target_id;
            created_at = db.clock;
          }
            ∷ db.follows)
          (suc db.next_id) db,
    )

delete_follow : ℕ → ℕ → M Social (Unit {0})
delete_follow user_id target_id db = (
  ok tt,
  with_follows (select (λ row. not (follows_user user_id target_id row)) db.follows) db.next_id db,
)

unfoldable pub set_follow : Reply → ℕ → ℕ → Bool → M Social (Unit {0})
unfolding insert_follow delete_follow follow_error
set_follow reply user_id target_id following = map_error follow_error (
    in_transaction reply
      (if following then insert_follow user_id target_id else delete_follow user_id target_id))

unfoldable pub follow_state : Reply → ℕ → ℕ → M Social Bool
unfolding follow_error
follow_state reply user_id target_id =
    map_error follow_error
      (query reply (λ db. ok (ltb 0 (count (follows_user user_id target_id) db.follows))))

unfoldable pub user_exists : Reply → ℕ → M Social Bool
unfolding follow_error
user_exists reply id =
    map_error follow_error
      (query reply (λ db. ok (ltb 0 (count (λ (user : User). user.id == id) db.users))))

abbrev newest_first : Follow → Follow → Bool
newest_first a b = leb b.id a.id

abbrev joined_users : (ℕ → Option User) → List Follow → List User
joined_users row [] = []
joined_users row (follow ∷ follows) = elim (row follow.follow_user_id) [
  | some user ↦ user ∷ joined_users row follows
  | none ↦ joined_users row follows
]

unfoldable pub following : Reply → ℕ → ℕ → ℕ → M Social (List User)
unfolding follow_error
following reply user_id offset limit = map_error follow_error (
    query reply (λ db. ok (
      window offset limit (
        joined_users (λ id. user_row id db)
          (sort_by newest_first (select (λ (row : Follow). row.user_id == user_id) db.follows))))))

-- The followers of an author at a time, by user: whom a new blog is pushed to.
unfoldable pub followers : Reply → ℕ → ℕ → M Social (List ℕ)
unfolding follow_error
followers reply author_id as_of = map_error follow_error (
    query reply (λ db. ok (
      map (λ (row : Follow). row.user_id)
        (sort_by (λ (a b : Follow). leb a.user_id b.user_id)
          (select (λ (row : Follow). row.follow_user_id == author_id && leb row.created_at as_of)
            db.follows)))))

-- internal/service/follow.go
module _ {S : Type 0} (exists : ℕ → M S Bool) where
  unfoldable pub validate : ℕ → ℕ → M S (Unit {0})
  validate user_id target_id = do
    fail_if (user_id == 0) (Fault.new Kind.unauthorized)
    fail_if (target_id == 0 || target_id == user_id) (Fault.new Kind.validation)
    found ← exists target_id
    fail_if (not found) (Fault.new Kind.not_found)

  unfoldable pub set : (ℕ → ℕ → Bool → M S (Unit {0})) → ℕ → ℕ → Bool → M S Bool
  unfolding validate
  set store user_id target_id wanted = do
    validate user_id target_id
    store user_id target_id wanted
    pure wanted

  unfoldable pub state : (ℕ → ℕ → M S Bool) → ℕ → ℕ → M S Bool
  unfolding validate
  state store user_id target_id = do validate user_id target_id; store user_id target_id

unfoldable pub list :
    {S : Type 0} → (ℕ → ℕ → ℕ → M S (List User)) → ℕ → ℕ → ℕ → M S (Page PublicUser)
unfolding page_of public_user
list store user_id page size = do
  fail_if (user_id == 0) (Fault.new Kind.unauthorized)
  fail_if (bad_page page size) (Fault.new Kind.validation)
  rows ← store user_id ((page - 1) * size) (size + 1)
  pure (page_of public_user page size rows)
