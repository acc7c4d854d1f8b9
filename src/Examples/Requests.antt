-- ===== src/Examples/Requests.antt =====
-- Requests to a small server: one session, one voucher on sale.
use local_life_go.Prelude.{
  parse_uint, ℕ, ◌+◌, ◌≤◌, ◌<◌, ◌≡◌, refl, ◌↔◌, ◌⊎◌, true, false, if◌then◌else◌, none, some, [],
  Text, bytes, arith, same_text, digits,
}
use local_life_go.AppError.{Kind, Fault}
use local_life_go.Effects.{ok, err, M, raise}
use local_life_go.Order.{OrderView}
use local_life_go.Handler.{Context, Request}
use local_life_go.Handler.Requests.{shop_positive_number}
use local_life_go.Handler.Middleware.{bearer_token, space_width}
use local_life_go.Handler.Routes.{
  Services, Library, Protected, protected_route, protected_handler, served,
}
use local_life_go.Handler.Sessions.{IsTurnedAway, IsLetIn, id_of, sessions_only}
use local_life_go.Handler.Numbers.{shop_positive_number_iff}
use local_life_go.Handler.Tokens.{is_word, bearer_token-words}
use local_life_go.Handler.Orders.{order_place}

-- What no request of the tests calls.
abbrev away : {A : Type 0} → M ℕ A
away = raise (Fault.new Kind.dependency)

-- The store is the number of orders placed.
abbrev place_one : ℕ → ℕ → M ℕ OrderView
place_one user id sold = (
  ok (record { id = sold; user_id = user; voucher_id = id; status = 1; created_at = 100 }),
  sold + 1,
)

abbrev session : Text → M ℕ ℕ
session token s =
    (if same_text token (bytes "secret") then ok 7 else err (Fault.new Kind.unauthorized), s)

abbrev server : Services ℕ
server = record {
  shops = record { types = away; list = λ _ _ _. away; detail = λ _. away };
  geo = record { nearby = λ _. away };
  vouchers = record { list = λ _ _ _. away; detail = λ _. away };
  orders = record { place = place_one; detail = λ _ _. away; list = λ _ _ _ _. away };
  async_orders = record { accept = λ _ _. away; result = λ _ _. away };
  auth = record {
    authenticate = session;
    request_code = λ _. away;
    login = λ _ _. away;
    me = λ _. away;
    logout = λ _. away;
  };
  follows = record { set = λ _ _ _. away; state = λ _ _. away; list = λ _ _ _. away };
  feed = record { read = λ _ _ _. away };
  blogs = record {
    publish = λ _ _. away;
    detail = λ _. away;
    list = λ _ _ _ _. away;
    like = λ _ _ _. away;
    like_state = λ _ _. away;
  };
  community = record {
    profile = λ _. away;
    hot = λ _ _. away;
    common = λ _ _ _ _. away;
    likers = λ _. away;
    delete_blog = λ _ _. away;
    sign = λ _ _. away;
    messages = λ _ _. away;
    save = λ _. away;
    read = λ _. away;
  };
}

abbrev library : Library
library = record {
  float = record { is_nan = λ _. false; is_inf = λ _. false; le = λ _ _. true; float_of = λ _. 0 };
  parse_float = λ _. none;
  phone = record { media_type = λ _. none; decode = λ _. none; is_end = λ _. true };
  credentials = record { media_type = λ _. none; decode = λ _. none; is_end = λ _. true };
  blog = record { media_type = λ _. none; decode = λ _. none; is_end = λ _. true };
  file = none;
  marshal = λ _. [];
}

abbrev buy : Request
buy = record {
  param = bytes "42";
  query = some [];
  content_type = [];
  body = [];
  authorization = bytes "bearer secret";
  request_id = bytes "request-1";
  last_event_id = [];
}

abbrev fresh_id : Text
fresh_id = bytes "ABCDEFGHIJKLMNOPQRSTUVWXYZ"

abbrev bought : Context × ℕ
bought = served server library fresh_id none none (protected_route Protected.place) buy 3

-- The order is placed, for the user of the session.
bought_status : (bought.0.status ≡ 200) × (bought.1 ≡ 4)
unfolding served bearer_token same_text order_place shop_positive_number parse_uint
bought_status = (refl, refl)

sessions_only_example :
    ((400 ≤ bought.0.status) × IsTurnedAway session buy 3 bought.1)
    ⊎ IsLetIn session
        (protected_handler server library Protected.place)
        (id_of fresh_id buy)
        none
        buy
        3
        bought
sessions_only_example = sessions_only server library fresh_id none Protected.place buy 3

shop_positive_number_iff_example :
    (shop_positive_number (bytes "42") 50 ≡ ok 42)
    ↔ ((digits (bytes "42") ≡ some 42) × (0 < 42) × (42 ≤ 50))
shop_positive_number_iff_example = shop_positive_number_iff (bytes "42") 50 42 (omega arith)

bearer_token-words_example : bearer_token (bytes "bEARER secret") ≡ some (bytes "secret")
unfolding same_text is_word space_width
bearer_token-words_example = bearer_token-words (bytes "bEARER") 115 (bytes "ecret") refl refl refl
