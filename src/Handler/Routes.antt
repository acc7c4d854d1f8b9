-- ===== src/Handler/Routes.antt =====
-- The routes that the Register functions of internal/handler name, each with the chain of its group.
use local_life_go.Prelude.{ℕ, true, false, Option, none, some, Text}
use local_life_go.Effects.{M}
use local_life_go.AppError.{Fault}
use local_life_go.Geo.{Floats}
use local_life_go.Social.Blogs.{BlogInput}
use local_life_go.Community.Messages.{LikeMessage}
use local_life_go.Handler.{Answer, Scope, Request, Context, Handler, fresh_context, handle}
use local_life_go.Handler.Requests.{Json}
use local_life_go.Handler.Middleware.{Run, finished, panicked, no_store, require_auth, http}
use local_life_go.Handler.Shops.{
  ShopService, GeoService, VoucherService, shop_types, shop_list, shop_detail, voucher_list,
  voucher_detail, geo_nearby,
}
use local_life_go.Handler.Orders.{
  OrderService, AsyncOrderService, order_place, order_detail, order_list, seckill_accept,
  seckill_result,
}
use local_life_go.Handler.People.{
  AuthService, FollowService, FeedService, auth_code, auth_login, auth_me, auth_logout, follow_set,
  follow_state, follow_list, feed_read,
}
use local_life_go.Handler.Community.{
  BlogService, CommunityService, FormFile, blog_publish, blog_detail, blog_list, blog_like,
  blog_like_state, community_profile, community_hot, community_common, community_likers,
  community_delete_blog, community_sign, community_upload, community_image, community_messages,
}

pub record Services (S : Type 0) : Type 0 where
  pub shops : ShopService S
  pub geo : GeoService S
  pub vouchers : VoucherService S
  pub orders : OrderService S
  pub async_orders : AsyncOrderService S
  pub auth : AuthService S
  pub follows : FollowService S
  pub feed : FeedService S
  pub blogs : BlogService S
  pub community : CommunityService S

-- What the libraries make of the parts of a request.
pub record Library : Type 0 where
  pub float : Floats
  pub parse_float : Text → Option ℕ
  pub phone : Json Text
  pub credentials : Json (Text × Text)
  pub blog : Json BlogInput
  pub file : Option FormFile
  pub marshal : LikeMessage → Text

-- Anyone's routes that leave caching alone, anyone's that forbid it, and those of a session.
pub data Open : Type 0 where
  types shops shop nearby blogs blog hot_blogs profile likers image : Open

pub data Public : Type 0 where
  vouchers voucher code login : Public

pub data Protected : Type 0 where
  place orders order accept result logout me publish like unlike like_state follow unfollow :
      Protected
  following_state following feed common sign signed delete_blog upload messages : Protected

pub data Route : Type 0 where
  open_route : Open → Route
  public_route : Public → Route
  protected_route : Protected → Route

-- How the chain ends where no handler panics, and where one does: what it had done by then is
-- given.
unfoldable pub run_of : {S : Type 0} → Option (Context × S) → Context × S → Run S
run_of none end = finished end
run_of (some point) end = panicked point

module _ {S : Type 0} (services : Services S) (lib : Library) where
  unfoldable pub open_handler : Open → Scope → Request → M S Answer
  open_handler Open.types = shop_types services.shops
  open_handler Open.shops = shop_list services.shops
  open_handler Open.shop = shop_detail services.shops
  open_handler Open.nearby = geo_nearby services.geo lib.float lib.parse_float
  open_handler Open.blogs = blog_list services.blogs
  open_handler Open.blog = blog_detail services.blogs
  open_handler Open.hot_blogs = community_hot services.community
  open_handler Open.profile = community_profile services.community
  open_handler Open.likers = community_likers services.community
  open_handler Open.image = community_image services.community

  unfoldable pub public_handler : Public → Scope → Request → M S Answer
  public_handler Public.vouchers = voucher_list services.vouchers
  public_handler Public.voucher = voucher_detail services.vouchers
  public_handler Public.code = auth_code services.auth lib.phone
  public_handler Public.login = auth_login services.auth lib.credentials

  unfoldable pub protected_handler : Protected → Scope → Request → M S Answer
  protected_handler Protected.place = order_place services.orders
  protected_handler Protected.orders = order_list services.orders
  protected_handler Protected.order = order_detail services.orders
  protected_handler Protected.accept = seckill_accept services.async_orders
  protected_handler Protected.result = seckill_result services.async_orders
  protected_handler Protected.logout = auth_logout services.auth
  protected_handler Protected.me = auth_me services.auth
  protected_handler Protected.publish = blog_publish services.blogs lib.blog
  protected_handler Protected.like = blog_like services.blogs true
  protected_handler Protected.unlike = blog_like services.blogs false
  protected_handler Protected.like_state = blog_like_state services.blogs
  protected_handler Protected.follow = follow_set services.follows true
  protected_handler Protected.unfollow = follow_set services.follows false
  protected_handler Protected.following_state = follow_state services.follows
  protected_handler Protected.following = follow_list services.follows
  protected_handler Protected.feed = feed_read services.feed
  protected_handler Protected.common = community_common services.community
  protected_handler Protected.sign = community_sign services.community true
  protected_handler Protected.signed = community_sign services.community false
  protected_handler Protected.delete_blog = community_delete_blog services.community
  protected_handler Protected.upload = community_upload services.community lib.file
  protected_handler Protected.messages = community_messages services.community lib.marshal

  unfoldable pub chain : Route → Handler S
  unfolding open_handler public_handler protected_handler handle require_auth
  chain (open_route o) = handle (open_handler o)
  chain (public_route p) = no_store (handle (public_handler p))
  chain (protected_route p) =
      no_store (require_auth services.auth.authenticate (handle (protected_handler p)))

  unfoldable pub served :
      Text → Option Fault → Option (Context × S) → Route → Request → S → Context × S
  unfolding chain http run_of
  served random over panic route r s =
      http random over (λ scope r c s. run_of panic (chain route scope r c s)) r fresh_context s
