-- ===== src/Community/Profiles.antt =====
-- Profiles, common follows and likers (internal/service/community.go over
-- internal/repository/community.go).
use local_life_go.Prelude.{
  ℕ, ◌+◌, ◌-◌, ◌*◌, ◌≡◌, refl, sym, ap, ◌∙◌, Bool, not, ◌&&◌, ◌||◌, Option, none, some, List, [],
  ◌∷◌, Text, arith, if◌then◌else◌, ltb, leb, ◌==◌, take, map, select, count, any, sort_by,
  Bool-cases, Option-cases,
}
use local_life_go.AppError.{Kind, Fault}
use local_life_go.Auth.{User, PublicUser, public_user}
use local_life_go.Effects.{
  Result, ok, err, M, pure, fail_if, map_error, ◌>>=◌, ◌>>◌, Reply, query, Reply-cases,
}
use local_life_go.Paging.{Page, page_of, valid_page}
use local_life_go.Paging.Laws.{window}
use local_life_go.Social.{BlogLike, Follow, Social, blog_error, user_row}
use local_life_go.Social.Blogs.{select_blog}
use local_life_go.Social.Follows.{follows_user}

-- internal/model/community.go
pub record Profile : Type 0 where
  pub id : ℕ
  pub nickname : Text
  pub avatar : Text
  pub city : Text
  pub introduce : Text
  pub gender : ℕ
  pub birthday : Text
  pub credits : ℕ
  pub level : ℕ
  pub fans : ℕ
  pub following : ℕ

-- The columns of a user that no other statement of the program reads or writes; the birthday is the
-- text that MySQL prints, empty for NULL.
pub record Details : Type 0 where
  pub city : Text
  pub introduce : Text
  pub gender : ℕ
  pub birthday : Text
  pub credits : ℕ
  pub level : ℕ

profile_of : (ℕ → Details) → Social → User → Profile
profile_of details db user = record {
  id = user.id;
  nickname = user.nickname;
  avatar = user.avatar;
  city = (details user.id).city;
  introduce = (details user.id).introduce;
  gender = (details user.id).gender;
  birthday = (details user.id).birthday;
  credits = (details user.id).credits;
  level = (details user.id).level;
  fans = count (λ (row : Follow). row.follow_user_id == user.id) db.follows;
  following = count (λ (row : Follow). row.user_id == user.id) db.follows;
}

abbrev profile_row : (ℕ → Details) → Social → Option User → Result Profile
profile_row details db none = err Fault.record_not_found
profile_row details db (some user) = ok (profile_of details db user)

unfoldable pub select_profile : Reply → (ℕ → Details) → ℕ → M Social Profile
unfolding profile_of blog_error
select_profile reply details id =
    map_error blog_error (query reply (λ db. profile_row details db (user_row id db)))

-- The two joins; the keys of the table let a user follow another once.
unfoldable pub both_follow : Social → ℕ → ℕ → User → Bool
both_follow db user_id target_id user =
    any (follows_user user_id user.id) db.follows && any (follows_user target_id user.id) db.follows

unfoldable pub select_common : Reply → ℕ → ℕ → ℕ → ℕ → M Social (List User)
unfolding both_follow blog_error
select_common reply user_id target_id offset limit = map_error blog_error (
    query reply (λ db. ok (
      window offset limit (
        sort_by (λ (a b : User). leb a.id b.id)
          (select (both_follow db user_id target_id) db.users)))))

abbrev earliest_first : BlogLike → BlogLike → Bool
earliest_first a b =
    ltb a.created_at b.created_at || (a.created_at == b.created_at && leb a.user_id b.user_id)

abbrev liking_users : Social → List BlogLike → List User
liking_users db [] = []
liking_users db (like ∷ likes) = elim (user_row like.user_id db) [
  | some user ↦ user ∷ liking_users db likes
  | none ↦ liking_users db likes
]

-- `found` is the reply to the statement of ByID.
unfoldable pub select_likers : Reply → Reply → ℕ → M Social (List User)
unfolding blog_error
select_likers found reply id = do
  select_blog found id
  map_error blog_error (
      query reply (λ db. ok (
        take 5 (
          liking_users db
            (sort_by earliest_first (select (λ (like : BlogLike). like.blog_id == id) db.likes))))))

-- internal/service/community.go
module _ {S : Type 0} where
  unfoldable pub profile : (ℕ → M S Profile) → ℕ → M S Profile
  profile store id = do fail_if (id == 0) (Fault.new Kind.validation); store id

  unfoldable pub common :
      (ℕ → M S Profile) → (ℕ → ℕ → ℕ → ℕ → M S (List User)) → ℕ → ℕ → ℕ → ℕ → M S (Page PublicUser)
  unfolding page_of public_user
  common profiles store user_id target_id page size = do
    fail_if (user_id == 0) (Fault.new Kind.unauthorized)
    fail_if (target_id == 0 || not (valid_page page size)) (Fault.new Kind.validation)
    profiles target_id
    rows ← store user_id target_id ((page - 1) * size) (size + 1)
    pure (page_of public_user page size rows)

  unfoldable pub likers : (ℕ → M S (List User)) → ℕ → M S (List PublicUser)
  unfolding public_user
  likers store id = do
    fail_if (id == 0) (Fault.new Kind.validation)
    rows ← store id
    pure (map public_user rows)

  unfoldable pub delete_blog : (ℕ → ℕ → M S (Unit {0})) → ℕ → ℕ → M S (Unit {0})
  delete_blog store id user_id = do
    fail_if (user_id == 0) (Fault.new Kind.unauthorized)
    fail_if (id == 0) (Fault.new Kind.validation)
    store id user_id

select-same :
    (p q : User → Bool) (users : List User)
    → ((u : User) → p u ≡ q u)
    → select p users ≡ select q users
select-same p q [] h = refl
select-same p q (user ∷ users) h =
    ap (λ test. if test then user ∷ select p users else select p users) (h user)
    ∙ ap (λ rest. if q user then user ∷ rest else rest) (select-same p q users h)

both_follow_comm :
    (db : Social) (a b : ℕ) (user : User) → both_follow db a b user ≡ both_follow db b a user
unfolding both_follow
both_follow_comm db a b user = ground arith

module _ (details : ℕ → Details) where
  abbrev pub common_on : Reply → Reply → ℕ → ℕ → ℕ → ℕ → M Social (Page PublicUser)
  common_on found reply = common (select_profile found details) (select_common reply)

  -- What a page of common follows shows.
  abbrev pub shared : Social → ℕ → ℕ → List User
  shared db user_id target_id =
      sort_by (λ (a b : User). leb a.id b.id) (select (both_follow db user_id target_id) db.users)

  common_ok :
      (found reply : Reply) (user_id target_id page size : ℕ) (db : Social) (p : Page PublicUser)
      → (common_on found reply user_id target_id page size db).0 ≡ ok p
      → p
        ≡ page_of public_user page size
            (window ((page - 1) * size) (size + 1) (shared db user_id target_id))
  unfolding common select_common select_profile
  common_ok found reply user_id target_id page size db p h = ground (
    arith,
    Bool-cases (user_id == 0),
    Bool-cases (target_id == 0 || not (valid_page page size)),
    Reply-cases found,
    Option-cases (user_row target_id db),
    Reply-cases reply,
  )

  -- The page of common follows is the same for both users, whoever asks: as long as both calls
  -- succeed.
  pub common_comm :
      (found reply found' reply' : Reply) (user_id target_id page size : ℕ) (db : Social)
      (p q : Page PublicUser)
      → (common_on found reply user_id target_id page size db).0 ≡ ok p
      → (common_on found' reply' target_id user_id page size db).0 ≡ ok q
      → p ≡ q
  common_comm found reply found' reply' user_id target_id page size db p q h k =
      common_ok found reply user_id target_id page size db p h
      ∙ ap
          (λ users.
            page_of public_user page size (
              window ((page - 1) * size) (size + 1)
                (sort_by (λ (a b : User). leb a.id b.id) users)))
          (select-same (both_follow db user_id target_id) (both_follow db target_id user_id)
            db.users (both_follow_comm db user_id target_id))
      ∙ sym (common_ok found' reply' target_id user_id page size db q k)
