-- ===== src/Handler/Community.antt =====
-- internal/handler/blog.go and community.go.
use local_life_go.Prelude.{
  ℕ, ◌+◌, ◌*◌, Bool, Option, none, some, List, [], ◌∷◌, ◌++◌, Text, bytes, ltb, length,
  if◌then◌else◌,
}
use local_life_go.Effects.{Result, ok, err, M, pure, from_result, fail_if, ◌>>=◌, ◌>>◌}
use local_life_go.Auth.{PublicUser}
use local_life_go.Community.{SignState}
use local_life_go.Community.Profiles.{Profile}
use local_life_go.Media.{Reader, max_image_bytes}
use local_life_go.Paging.{Page}
use local_life_go.Social.Blogs.{BlogInput, BlogView}
use local_life_go.Community.Messages.{LikeMessage}
use local_life_go.Handler.{Answer, Payload, Scope, Request}
use local_life_go.Handler.Requests.{
  max_uint, invalid, shop_query_number, parsed_query, page_number, community_page, community_id,
  Json, decode_json_limit,
}

pub record BlogService (S : Type 0) : Type 0 where
  pub publish : ℕ → BlogInput → M S BlogView
  pub detail : ℕ → M S BlogView
  pub list : ℕ → ℕ → ℕ → ℕ → M S (Page BlogView)
  pub like : ℕ → ℕ → Bool → M S Bool
  pub like_state : ℕ → ℕ → M S Bool

-- service.Community and service.Media.
pub record CommunityService (S : Type 0) : Type 0 where
  pub profile : ℕ → M S Profile
  pub hot : ℕ → ℕ → M S (Page BlogView)
  pub common : ℕ → ℕ → ℕ → ℕ → M S (Page PublicUser)
  pub likers : ℕ → M S (List PublicUser)
  pub delete_blog : ℕ → ℕ → M S (Unit {0})
  pub sign : ℕ → Bool → M S SignState
  pub messages : ℕ → Text → M S (List LikeMessage)
  pub save : Reader → M S Text
  pub read : Text → M S (Text × Text)

module _ {S : Type 0} (service : BlogService S) where
  unfoldable pub blog_publish : Json BlogInput → Scope → Request → M S Answer
  unfolding decode_json_limit
  blog_publish json scope r = do
    input ← from_result (decode_json_limit json r (64 * 1024))
    view ← service.publish scope.user_id input
    pure (Answer.success_of (Payload.blog view))

  unfoldable pub blog_detail : Scope → Request → M S Answer
  blog_detail scope r = do
    id ← community_id r
    view ← service.detail id
    pure (Answer.success_of (Payload.blog view))

  unfoldable pub blog_list : Scope → Request → M S Answer
  unfolding page_number
  blog_list scope r = do
    query ← parsed_query r
    shop_id ← from_result (shop_query_number query (bytes "shop_id") 0 max_uint)
    user_id ← from_result (shop_query_number query (bytes "user_id") 0 max_uint)
    (page, size) ← page_number query
    items ← service.list shop_id user_id page size
    pure (Answer.success_of (Payload.blogs items))

  unfoldable pub blog_like : Bool → Scope → Request → M S Answer
  blog_like wanted scope r = do
    id ← community_id r
    liked ← service.like id scope.user_id wanted
    pure (Answer.success_of (Payload.liked liked))

  unfoldable pub blog_like_state : Scope → Request → M S Answer
  blog_like_state scope r = do
    id ← community_id r
    liked ← service.like_state id scope.user_id
    pure (Answer.success_of (Payload.liked liked))

-- One event of the stream of notifications; json.Marshal is a parameter.
abbrev event_text : (LikeMessage → Text) → LikeMessage → Text
event_text marshal m =
    bytes "id: " ++ m.id ++ bytes "\nevent: like\ndata: " ++ marshal m ++ bytes "\n\n"

unfoldable pub stream_text : (LikeMessage → Text) → List LikeMessage → Text
stream_text marshal [] = []
stream_text marshal (m ∷ rest) = event_text marshal m ++ stream_text marshal rest

-- The form file of an upload: its size as the form says it, and what opening it gives.
pub record FormFile : Type 0 where
  pub size : ℕ
  pub opened : Option Reader

module _ {S : Type 0} (service : CommunityService S) where
  unfoldable pub community_profile : Scope → Request → M S Answer
  community_profile scope r = do
    id ← community_id r
    shown ← service.profile id
    pure (Answer.success_of (Payload.profile shown))

  unfoldable pub community_hot : Scope → Request → M S Answer
  unfolding community_page
  community_hot scope r = do
    (page, size) ← community_page r
    items ← service.hot page size
    pure (Answer.success_of (Payload.blogs items))

  unfoldable pub community_common : Scope → Request → M S Answer
  unfolding community_page
  community_common scope r = do
    id ← community_id r
    (page, size) ← community_page r
    items ← service.common scope.user_id id page size
    pure (Answer.success_of (Payload.users items))

  unfoldable pub community_likers : Scope → Request → M S Answer
  community_likers scope r = do
    id ← community_id r
    users ← service.likers id
    pure (Answer.success_of (Payload.likers users))

  unfoldable pub community_delete_blog : Scope → Request → M S Answer
  community_delete_blog scope r = do
    id ← community_id r
    service.delete_blog id scope.user_id
    pure (Answer.success_of Payload.nothing)

  unfoldable pub community_sign : Bool → Scope → Request → M S Answer
  community_sign write scope r = do
    state ← service.sign scope.user_id write
    pure (Answer.success_of (Payload.sign state))

  abbrev readable : Option FormFile → Result Reader
  readable none = err invalid
  readable (some file) =
      if ltb max_image_bytes file.size
      then err invalid
      else elim file.opened [ none ↦ err invalid | some reader ↦ ok reader ]

  unfoldable pub community_upload : Option FormFile → Scope → Request → M S Answer
  community_upload file scope r = do
    fail_if (ltb (max_image_bytes + 64 * 1024) (length r.body)) invalid
    reader ← from_result (readable file)
    path ← service.save reader
    pure (Answer.success_of (Payload.url path))

  unfoldable pub community_image : Scope → Request → M S Answer
  community_image scope r = do
    (content, kind) ← service.read r.param
    pure (
        Answer.data_of
          ((bytes "X-Content-Type-Options", bytes "nosniff")
            ∷ (bytes "Cache-Control", bytes "public, max-age=86400")
            ∷ [])
          kind content)

  unfoldable pub community_messages : (LikeMessage → Text) → Scope → Request → M S Answer
  unfolding stream_text
  community_messages marshal scope r = do
    found ← service.messages scope.user_id r.last_event_id
    pure (
        Answer.data_of ((bytes "X-Accel-Buffering", bytes "no") ∷ [])
          (bytes "text/event-stream; charset=utf-8")
          (bytes "retry: 1000\n\n" ++ stream_text marshal found))
