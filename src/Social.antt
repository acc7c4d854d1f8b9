-- ===== src/Social.antt =====
-- The MySQL tables of users, blogs, likes and follows, and how a transaction on them ends.
pub mod Blogs
pub mod Likes
pub mod Follows
pub mod Visible
use local_life_go.Prelude.{
  ℕ, suc, ◌+◌, ◌-◌, ◌*◌, ◌≤◌, ◌<◌, ◌≡◌, ◌≢◌, refl, sym, ap, subst, ◌∙◌, ◌⊎◌, inl, inr, Bool, true,
  false, not, ◌&&◌, ◌||◌, Option, none, some, List, [], ◌∷◌, ◌++◌, map, arith, if◌then◌else◌, ltb,
  leb, ◌==◌, Bool-cases, Option-cases, is_some, length, take, drop, select, count, find, any, all,
  All, sort_by, Text, bytes, same_text, same_text_refl, same_text_sound, digits, format_uint,
  is_digit,
}
use local_life_go.Effects.{
  Result, ok, err, M, pure, raise, fail_if, attempt, from_result, map_error, map_result, ◌>>=◌,
  ◌>>◌, Reply, done, failed, unacknowledged, answer, written, query, send, first_row, is_ok,
  is_unacknowledged, Result-cases, Reply-cases, check_context, wrap_error,
}
use local_life_go.AppError.{
  is_foreign_key_violated, is_record_not_found, Kind, Fault, classified, describe, kind_text,
}
use local_life_go.Paging.{Page, page_of, bad_page, valid_page}
use local_life_go.Paging.Laws.{window}
use local_life_go.Auth.{User, PublicUser, public_user}

-- internal/model/blog.go; the last three fields are of the joined query and no columns of the table.
pub record Blog : Type 0 where
  pub id : ℕ
  pub user_id : ℕ
  pub shop_id : ℕ
  pub title : Text
  pub content : Text
  pub images : Text
  pub created_at : ℕ
  pub nickname : Text
  pub avatar : Text
  pub like_count : ℕ

pub record BlogLike : Type 0 where
  pub blog_id : ℕ
  pub user_id : ℕ
  pub created_at : ℕ

-- internal/model/follow.go
pub record Follow : Type 0 where
  pub id : ℕ
  pub user_id : ℕ
  pub follow_user_id : ℕ
  pub created_at : ℕ

-- `clock` is the time that GORM stamps a new row with.
pub record Social : Type 0 where
  pub users : List User
  pub shops : List ℕ
  pub blogs : List Blog
  pub likes : List BlogLike
  pub follows : List Follow
  pub next_id : ℕ
  pub clock : ℕ

abbrev pub user_row : ℕ → Social → Option User
user_row id db = find (λ (user : User). user.id == id) db.users

abbrev pub has_user : ℕ → Social → Bool
has_user id db = any (λ (user : User). user.id == id) db.users

-- A transaction: an error of a statement rolls it back; `failed` is a statement or a COMMIT that was
-- refused, and `unacknowledged` a COMMIT whose answer was lost.
abbrev rolled_back : {A : Type 0} → Reply → Fault → Result A
rolled_back done e = err e
rolled_back (failed f) e = err f
rolled_back (unacknowledged f) e = err e

abbrev pub in_transaction : {A : Type 0} → Reply → M Social A → M Social A
in_transaction reply m db =
    let (r, after) = m db in
    elim r [
      | ok a ↦ (answer reply (ok a), written reply db after)
      | err e ↦ (rolled_back reply e, db)
    ]

-- blogError of internal/repository/blog.go and followError of internal/repository/follow.go
unfoldable pub blog_error : Fault → Fault
blog_error e =
    if is_record_not_found e || is_foreign_key_violated e
    then Fault.wrap Kind.not_found e
    else Fault.wrap Kind.dependency e

unfoldable pub follow_error : Fault → Fault
follow_error e =
    if is_foreign_key_violated e then Fault.wrap Kind.not_found e else Fault.wrap Kind.dependency e
