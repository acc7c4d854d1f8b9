-- ===== src/Handler/People.antt =====
-- internal/handler/auth.go, follow.go and feed.go.
use local_life_go.Prelude.{
  ℕ, Bool, false, Option, none, some, List, [], ◌∷◌, Text, bytes, ltb, length,
}
use local_life_go.Effects.{M, pure, from_result, fail_if, ◌>>=◌, ◌>>◌}
use local_life_go.Auth.{CodeResult, LoginResult, PublicUser}
use local_life_go.Feed.{FeedPage}
use local_life_go.Paging.{Page}
use local_life_go.Handler.{Answer, Payload, Scope, Request}
use local_life_go.Handler.Requests.{
  invalid, shop_query_number, values_of, parsed_query, community_page, community_id, Json,
  decode_json, decode_json_limit,
}
use local_life_go.Handler.Middleware.{bearer_token}

pub record AuthService (S : Type 0) : Type 0 where
  pub authenticate : Text → M S ℕ
  pub request_code : Text → M S CodeResult
  pub login : Text → Text → M S LoginResult
  pub me : ℕ → M S PublicUser
  pub logout : Text → M S (Unit {0})

pub record FollowService (S : Type 0) : Type 0 where
  pub set : ℕ → ℕ → Bool → M S Bool
  pub state : ℕ → ℕ → M S Bool
  pub list : ℕ → ℕ → ℕ → M S (Page PublicUser)

pub record FeedService (S : Type 0) : Type 0 where
  pub read : ℕ → Text → ℕ → M S FeedPage

module _ {S : Type 0} (service : AuthService S) where
  unfoldable pub auth_code : Json Text → Scope → Request → M S Answer
  unfolding decode_json_limit
  auth_code json scope r = do
    phone ← from_result (decode_json json r)
    result ← service.request_code phone
    pure (Answer.success_of (Payload.code result))

  unfoldable pub auth_login : Json (Text × Text) → Scope → Request → M S Answer
  unfolding decode_json_limit
  auth_login json scope r = do
    (phone, code) ← from_result (decode_json json r)
    result ← service.login phone code
    pure (Answer.success_of (Payload.login result))

  unfoldable pub auth_me : Scope → Request → M S Answer
  auth_me scope r = do user ← service.me scope.user_id; pure (Answer.success_of (Payload.user user))

  abbrev or_empty : Option Text → Text
  or_empty none = []
  or_empty (some token) = token

  unfoldable pub auth_logout : Scope → Request → M S Answer
  unfolding bearer_token
  auth_logout scope r = do
    service.logout (or_empty (bearer_token r.authorization))
    pure (Answer.success_of Payload.nothing)

module _ {S : Type 0} (service : FollowService S) where
  unfoldable pub follow_set : Bool → Scope → Request → M S Answer
  follow_set wanted scope r = do
    id ← community_id r
    result ← service.set scope.user_id id wanted
    pure (Answer.success_of (Payload.is_following result))

  unfoldable pub follow_state : Scope → Request → M S Answer
  follow_state scope r = do
    id ← community_id r
    result ← service.state scope.user_id id
    pure (Answer.success_of (Payload.is_following result))

  unfoldable pub follow_list : Scope → Request → M S Answer
  unfolding community_page
  follow_list scope r = do
    (page, size) ← community_page r
    items ← service.list scope.user_id page size
    pure (Answer.success_of (Payload.users items))

-- q["cursor"] and q.Get("cursor")
abbrev is_repeated : Option (List Text) → Bool
is_repeated none = false
is_repeated (some values) = ltb 1 (length values)

abbrev first_value : Option (List Text) → Text
first_value (some (value ∷ _)) = value
first_value _ = []

module _ {S : Type 0} (service : FeedService S) where
  unfoldable pub feed_read : Scope → Request → M S Answer
  feed_read scope r = do
    query ← parsed_query r
    size ← from_result (shop_query_number query (bytes "page_size") 10 50)
    fail_if (is_repeated (values_of (bytes "cursor") query)) invalid
    page ← service.read scope.user_id (first_value (values_of (bytes "cursor") query)) size
    pure (Answer.success_of (Payload.feed page))
