-- ===== src/Handler/Statuses.antt =====
-- Which status a route answers a success with, and that no handler touches the identifier's header.
use local_life_go.Prelude.{ℕ, ◌≡◌, false, Text, bytes, arith, All, same_text}
use local_life_go.Effects.{Result, ok, err}
use local_life_go.Handler.{Answer, Scope, Request}
use local_life_go.Handler.Routes.{
  Services, Library, Route, Open, Public, Protected, open_route, public_route, protected_route,
  open_handler, public_handler, protected_handler,
}
use local_life_go.Handler.Shops.{
  shop_types, shop_list, shop_detail, voucher_list, voucher_detail, geo_nearby,
}
use local_life_go.Handler.Orders.{
  order_place, order_detail, order_list, seckill_accept, seckill_result,
}
use local_life_go.Handler.People.{
  auth_code, auth_login, auth_me, auth_logout, follow_set, follow_state, follow_list, feed_read,
}
use local_life_go.Handler.Community.{
  blog_publish, blog_detail, blog_list, blog_like, blog_like_state, community_profile,
  community_hot, community_common, community_likers, community_delete_blog, community_sign,
  community_upload, community_image, community_messages,
}

-- A ticket is accepted for later; all else is done when it is answered.
abbrev pub success_status : Route → ℕ
success_status (protected_route Protected.accept) = 202
success_status _ = 200

abbrev pub Allows : ℕ → Answer → Type 0
Allows n (Answer.success_of payload) = n ≡ 200
Allows n (Answer.accepted payload) = n ≡ 202
Allows n (Answer.data_of headers kind content) =
    (n ≡ 200) × All (λ (h : Text × Text). same_text h.0 (bytes "X-Request-ID") ≡ false) headers

abbrev pub Yields : ℕ → Result Answer → Type 0
Yields n (ok answer) = Allows n answer
Yields n (err e) = Unit

module _ {S : Type 0} (services : Services S) (lib : Library) (scope : Scope) (r : Request)
    (s : S) where
  pub open-Yields :
      (o : Open) → Yields (success_status (open_route o)) (open_handler services lib o scope r s).0
  unfolding same_text open_handler shop_types shop_list shop_detail geo_nearby blog_list blog_detail
      community_hot community_profile community_likers community_image
  open-Yields Open.types = ground arith
  open-Yields Open.shops = ground arith
  open-Yields Open.shop = ground arith
  open-Yields Open.nearby = ground arith
  open-Yields Open.blogs = ground arith
  open-Yields Open.blog = ground arith
  open-Yields Open.hot_blogs = ground arith
  open-Yields Open.profile = ground arith
  open-Yields Open.likers = ground arith
  open-Yields Open.image = ground arith

module _ {S : Type 0} (services : Services S) (lib : Library) (scope : Scope) (r : Request)
    (s : S) where
  pub public-Yields :
      (o : Public)
      → Yields (success_status (public_route o)) (public_handler services lib o scope r s).0
  unfolding public_handler voucher_list voucher_detail auth_code auth_login
  public-Yields Public.vouchers = ground arith
  public-Yields Public.voucher = ground arith
  public-Yields Public.code = ground arith
  public-Yields Public.login = ground arith

module _ {S : Type 0} (services : Services S) (lib : Library) (scope : Scope) (r : Request)
    (s : S) where
  pub protected-Yields :
      (o : Protected)
      → Yields (success_status (protected_route o)) (protected_handler services lib o scope r s).0
  unfolding same_text protected_handler order_place order_list order_detail seckill_accept
      seckill_result auth_logout auth_me blog_publish blog_like blog_like_state follow_set
      follow_state follow_list feed_read community_common community_sign community_delete_blog
      community_upload community_messages
  protected-Yields Protected.place = ground arith
  protected-Yields Protected.orders = ground arith
  protected-Yields Protected.order = ground arith
  protected-Yields Protected.accept = ground arith
  protected-Yields Protected.result = ground arith
  protected-Yields Protected.logout = ground arith
  protected-Yields Protected.me = ground arith
  protected-Yields Protected.publish = ground arith
  protected-Yields Protected.like = ground arith
  protected-Yields Protected.unlike = ground arith
  protected-Yields Protected.like_state = ground arith
  protected-Yields Protected.follow = ground arith
  protected-Yields Protected.unfollow = ground arith
  protected-Yields Protected.following_state = ground arith
  protected-Yields Protected.following = ground arith
  protected-Yields Protected.feed = ground arith
  protected-Yields Protected.common = ground arith
  protected-Yields Protected.sign = ground arith
  protected-Yields Protected.signed = ground arith
  protected-Yields Protected.delete_blog = ground arith
  protected-Yields Protected.upload = ground arith
  protected-Yields Protected.messages = ground arith
