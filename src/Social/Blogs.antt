-- ===== src/Social/Blogs.antt =====
-- Blogs (internal/service/blog.go, internal/repository/blog.go, and the blog queries of
-- internal/repository/community.go).
use local_life_go.Prelude.{
  ℕ, suc, ◌+◌, ◌-◌, ◌*◌, Bool, false, not, ◌&&◌, ◌||◌, Option, none, some, List, [], ◌∷◌,
  if◌then◌else◌, ltb, leb, ◌==◌, length, select, count, find, any, all, sort_by, Text,
}
use local_life_go.Effects.{
  ok, err, M, pure, fail_if, map_error, ◌>>=◌, ◌>>◌, Reply, query, first_row,
}
use local_life_go.AppError.{Kind, Fault}
use local_life_go.Paging.{Page, page_of, bad_page, valid_page}
use local_life_go.Paging.Laws.{window}
use local_life_go.Auth.{User}
use local_life_go.Social.{Blog, BlogLike, Social, in_transaction, blog_error, user_row, has_user}

pub record BlogInput : Type 0 where
  pub images : List Text
  pub shop_id : ℕ
  pub title : Text
  pub content : Text

pub record BlogView : Type 0 where
  pub images : List Text
  pub nickname : Text
  pub avatar : Text
  pub id : ℕ
  pub user_id : ℕ
  pub shop_id : ℕ
  pub title : Text
  pub content : Text
  pub like_count : ℕ
  pub created_at : ℕ

-- The query that every read of a blog starts from: the join with its author, and the count of the
-- rows of its likes.
abbrev pub likes_of : ℕ → List BlogLike → ℕ
likes_of id likes = count (λ (like : BlogLike). like.blog_id == id) likes

abbrev pub joined : Social → Blog → User → Blog
joined db row user = record {
  id = row.id;
  user_id = row.user_id;
  shop_id = row.shop_id;
  title = row.title;
  content = row.content;
  images = row.images;
  created_at = row.created_at;
  nickname = user.nickname;
  avatar = user.avatar;
  like_count = likes_of row.id db.likes;
}

unfoldable pub joined_blogs : Social → List Blog → List Blog
joined_blogs db [] = []
joined_blogs db (row ∷ rows) = elim (user_row row.user_id db) [
  | some user ↦ joined db row user ∷ joined_blogs db rows
  | none ↦ joined_blogs db rows
]

unfoldable pub select_blog : Reply → ℕ → M Social Blog
unfolding joined_blogs blog_error
select_blog reply id =
    map_error blog_error (
      query reply
        (λ db. first_row (find (λ (row : Blog). row.id == id) (joined_blogs db db.blogs))))

abbrev latest_first : Blog → Blog → Bool
latest_first a b = ltb b.created_at a.created_at || (a.created_at == b.created_at && leb b.id a.id)

unfoldable pub select_blogs : Reply → ℕ → ℕ → ℕ → ℕ → M Social (List Blog)
unfolding joined_blogs blog_error
select_blogs reply shop_id user_id offset limit = map_error blog_error (
    query reply (λ db. ok (
      window offset limit (
        sort_by latest_first (
          select
            (λ (row : Blog).
              (shop_id == 0 || row.shop_id == shop_id) && (user_id == 0 || row.user_id == user_id))
            (joined_blogs db db.blogs))))))

abbrev hottest_first : Blog → Blog → Bool
hottest_first a b = ltb b.like_count a.like_count || (a.like_count == b.like_count && leb b.id a.id)

unfoldable pub select_hot : Reply → ℕ → ℕ → M Social (List Blog)
unfolding joined_blogs blog_error
select_hot reply offset limit = map_error blog_error (
    query reply (λ db. ok (window offset limit (sort_by hottest_first (joined_blogs db db.blogs)))))

-- INSERT, with the foreign keys of the table; GORM stamps the row.
insert_blog : Blog → M Social ℕ
insert_blog row db =
    if not (has_user row.user_id db) || not (any (λ id. id == row.shop_id) db.shops)
    then (err Fault.foreign_key_violated, db)
    else (
      ok db.next_id,
      record {
        users = db.users;
        shops = db.shops;
        blogs =
            record {
              id = db.next_id;
              user_id = row.user_id;
              shop_id = row.shop_id;
              title = row.title;
              content = row.content;
              images = row.images;
              created_at = db.clock;
              nickname = [];
              avatar = [];
              like_count = 0;
            }
            ∷ db.blogs;
        likes = db.likes;
        follows = db.follows;
        next_id = suc db.next_id;
        clock = db.clock;
      },
    )

unfoldable pub create_blog : Reply → Reply → Blog → M Social Blog
unfolding insert_blog select_blog
create_blog inserted selected row = do
  id ← map_error blog_error (in_transaction inserted (insert_blog row))
  select_blog selected id

-- What the service takes of the standard library and of its own media and feed services: `trim` and
-- `runes` of strings and utf8, the JSON of a list of texts, and the test of one image address.
pub record BlogTools : Type 0 where
  pub trim : Text → Text
  pub runes : Text → Option ℕ
  pub encode_images : List Text → Text
  pub decode_images : Text → List Text
  pub is_image : Text → Bool

module _ (tools : BlogTools) where
  within_runes : ℕ → Option ℕ → Bool
  within_runes limit none = false
  within_runes limit (some n) = leb n limit

  unfoldable pub valid_blog_text : Text → ℕ → Bool
  unfolding within_runes
  valid_blog_text value limit = not (length value == 0) && within_runes limit (tools.runes value)

  unfoldable pub valid_blog_images : List Text → Bool
  valid_blog_images images =
      leb (length images) 9 && all (λ value. leb (length value) 512 && tools.is_image value) images

  unfoldable pub blog_view : Blog → BlogView
  blog_view row = record {
    images = tools.decode_images row.images;
    nickname = row.nickname;
    avatar = row.avatar;
    id = row.id;
    user_id = row.user_id;
    shop_id = row.shop_id;
    title = row.title;
    content = row.content;
    like_count = row.like_count;
    created_at = row.created_at;
  }

  module _ {S : Type 0} where
    -- The blog is stored before it is pushed; an error of the push is returned with the row in place.
    unfoldable pub publish_blog :
        (ℕ → M S (Unit {0}))
        → (Blog → M S Blog)
        → (Blog → M S (Unit {0}))
        → (Fault → Fault)
        → ℕ
        → BlogInput
        → M S BlogView
    unfolding valid_blog_text valid_blog_images blog_view
    publish_blog shop_by_id create push feed_error user_id input = do
      fail_if (user_id == 0) (Fault.new Kind.unauthorized)
      fail_if
          (not (valid_blog_images input.images)
            || input.shop_id == 0
            || not (valid_blog_text (tools.trim input.title) 255)
            || not (valid_blog_text (tools.trim input.content) 10000))
          (Fault.new Kind.validation)
      shop_by_id input.shop_id
      row ← create (record {
        id = 0;
        user_id = user_id;
        shop_id = input.shop_id;
        title = tools.trim input.title;
        content = tools.trim input.content;
        images = tools.encode_images input.images;
        created_at = 0;
        nickname = [];
        avatar = [];
        like_count = 0;
      })
      map_error feed_error (push row)
      pure (blog_view row)

    unfoldable pub detail : (ℕ → M S Blog) → ℕ → M S BlogView
    unfolding blog_view
    detail by_id id = do
      fail_if (id == 0) (Fault.new Kind.validation)
      row ← by_id id
      pure (blog_view row)

    unfoldable pub list : (ℕ → ℕ → ℕ → ℕ → M S (List Blog)) → ℕ → ℕ → ℕ → ℕ → M S (Page BlogView)
    unfolding page_of blog_view
    list store shop_id user_id page page_size = do
      fail_if (bad_page page page_size) (Fault.new Kind.validation)
      rows ← store shop_id user_id ((page - 1) * page_size) (page_size + 1)
      pure (page_of blog_view page page_size rows)

    unfoldable pub hot : (ℕ → ℕ → M S (List Blog)) → ℕ → ℕ → M S (Page BlogView)
    unfolding page_of blog_view
    hot store page size = do
      fail_if (not (valid_page page size)) (Fault.new Kind.validation)
      rows ← store ((page - 1) * size) (size + 1)
      pure (page_of blog_view page size rows)
