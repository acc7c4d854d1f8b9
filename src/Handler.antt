-- ===== src/Handler.antt =====
-- HTTP as the handlers see it: internal/handler, internal/middleware and pkg/response. A request is
-- given by what the code asks of Hertz; what net/url makes of the query is part of it.
pub mod Requests
pub mod Middleware
pub mod Shops
pub mod Orders
pub mod People
pub mod Community
pub mod Routes
pub mod Statuses
pub mod Laws
pub mod Served
pub mod Sessions
pub mod Numbers
pub mod Tokens
use local_life_go.Prelude.{
  ℕ, Bool, true, false, Option, none, some, List, [], ◌∷◌, ◌++◌, Text, bytes, same_text, not,
  select,
}
use local_life_go.AppError.{Fault, Description, describe}
use local_life_go.Effects.{Result, M, ok, err}
use local_life_go.Order.{OrderView}
use local_life_go.AsyncOrder.{SeckillView}
use local_life_go.Auth.{CodeResult, LoginResult, PublicUser}
use local_life_go.Community.{SignState}
use local_life_go.Community.Profiles.{Profile}
use local_life_go.Feed.{FeedPage}
use local_life_go.Geo.{NearbyShop}
use local_life_go.Paging.{Page}
use local_life_go.Shop.{ShopTypeView, ShopView}
use local_life_go.Social.Blogs.{BlogView}
use local_life_go.Voucher.{VoucherView}

-- The `data` of an answer.
pub data Payload : Type 0 where
  nothing : Payload
  shop_types : List ShopTypeView → Payload
  shops : Page ShopView → Payload
  shop : ShopView → Payload
  nearby_shops : List NearbyShop → Payload
  vouchers : Page VoucherView → Payload
  voucher : VoucherView → Payload
  orders : Page OrderView → Payload
  order : OrderView → Payload
  seckill : SeckillView → Payload
  blogs : Page BlogView → Payload
  blog : BlogView → Payload
  liked : Bool → Payload
  is_following : Bool → Payload
  users : Page PublicUser → Payload
  likers : List PublicUser → Payload
  user : PublicUser → Payload
  profile : Profile → Payload
  sign : SignState → Payload
  feed : FeedPage → Payload
  code : CodeResult → Payload
  login : LoginResult → Payload
  url : Text → Payload

-- pkg/response/response.go
pub record Envelope : Type 0 where
  pub code : Text
  pub message : Text
  pub payload : Payload
  pub request_id : Text

-- What was written to the body of a response: JSON, or bytes of a media type.
pub data Content : Type 0 where
  json : Envelope → Content
  raw : Text → Text → Content

-- The response side of app.RequestContext. Rendering appends to the body.
pub record Context : Type 0 where
  pub status : ℕ
  pub body : List Content
  pub headers : List (Text × Text)
  pub error_code : Text
  pub is_aborted : Bool

abbrev pub fresh_context : Context
fresh_context = record {
  status = 200;
  body = [];
  headers = [];
  error_code = [];
  is_aborted = false;
}

abbrev pub set_header : Text → Text → Context → Context
set_header name value c = record c {
  headers = (name, value) ∷ select (λ other. not (same_text other.0 name)) c.headers;
}

abbrev pub render : ℕ → Content → Context → Context
render status content c = record c { status = status; body = c.body ++ (content ∷ []) }

-- The values of the context.Context that the handlers ask for.
pub record Scope : Type 0 where
  pub user_id : ℕ
  pub request_id : Text

unfoldable pub success : Scope → Payload → Context → Context
success scope payload c =
    render 200
      (Content.json (record {
        code = bytes "ok";
        message = bytes "success";
        payload = payload;
        request_id = scope.request_id;
      }))
      c

abbrev pub failure : Scope → Description → Content
failure scope d = Content.json (record {
  code = d.code;
  message = d.message;
  payload = Payload.nothing;
  request_id = scope.request_id;
})

unfoldable pub fail : Scope → Fault → Context → Context
fail scope e c =
    let d = describe e in render d.status (failure scope d) (record c { error_code = d.code })

pub record Request : Type 0 where
  pub param : Text
  pub query : Option (List (Text × List Text))
  pub content_type : Text
  pub body : Text
  pub authorization : Text
  pub request_id : Text
  pub last_event_id : Text

-- How a handler ends without an error: response.Success, the same and then status 202, or c.Data
-- under some headers.
pub data Answer : Type 0 where
  success_of : Payload → Answer
  accepted : Payload → Answer
  data_of : List (Text × Text) → Text → Text → Answer

abbrev pub with_headers : List (Text × Text) → Context → Context
with_headers [] c = c
with_headers ((name, value) ∷ rest) c = with_headers rest (set_header name value c)

-- Every handler ends its error branches with response.Fail.
unfoldable pub respond : Scope → Result Answer → Context → Context
unfolding success fail
respond scope (ok (success_of payload)) c = success scope payload c
respond scope (ok (accepted payload)) c = record (success scope payload c) { status = 202 }
respond scope (ok (data_of headers kind content)) c =
    render 200 (Content.raw kind content) (with_headers headers c)
respond scope (err e) c = fail scope e c

-- A handler in a chain.
abbrev pub Handler : Type 0 → Type 0
Handler S = Scope → Request → Context → S → Context × S

unfoldable pub handle : {S : Type 0} → (Scope → Request → M S Answer) → Handler S
unfolding respond
handle f scope r c s = let (answer, s') = f scope r s in (respond scope answer c, s')
