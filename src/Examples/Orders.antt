-- ===== src/Examples/Orders.antt =====
-- Orders and events on small tables of internal/repository.
use local_life_go.Prelude.{
  ℕ, ◌+◌, ◌<◌, ◌≡◌, ◌≢◌, refl, ◌⊎◌, true, none, [], ◌∷◌, arith, ◌==◌, Bool-cases, find, bytes,
}
use local_life_go.Effects.{ok, done, unacknowledged, is_unacknowledged}
use local_life_go.AppError.{Kind, Fault, classified}
use local_life_go.Model.{SeckillVoucher}
use local_life_go.Database.{Database, Statement, Replies, quiet, is_activity}
use local_life_go.Database.Laws.{IsConsistent, OncePerUser, sales, sell}
use local_life_go.Order.{order_view, place, place_within, OrderView}
use local_life_go.Order.Repository.{orders_repository, order_transaction}
use local_life_go.Order.Place.{
  placed, CanPlace, run_place, place_ok, place_error, place_complete, place-Refused, Refused,
}
use local_life_go.AsyncOrder.Repository.{stage, stage_row}
use local_life_go.AsyncOrder.Activation.{run_stage}
use local_life_go.AsyncOrder.History.{order_placed, here, later, never_oversold, stage_fences}

abbrev sale : SeckillVoucher
sale = record {
  async_state = 0;
  async_generation = [];
  async_capacity = 0;
  voucher_id = 5;
  stock = 2;
  begin_time = 100;
  end_time = 200;
}

-- Two users and one activity of two units, of which none is sold.
abbrev market : Database
market = record {
  users = 7 ∷ 8 ∷ [];
  vouchers = 5 ∷ [];
  activities = sale ∷ [];
  orders = [];
  results = [];
  next_id = 1;
}

abbrev capacity : ℕ → ℕ
capacity _ = 2

market-IsConsistent : IsConsistent capacity market
market-IsConsistent = record {
  balanced = (refl, tt);
  once = tt;
  keys = λ id. ground (arith, Bool-cases (5 == id));
  fresh = tt;
}

abbrev bought_view : OrderView
bought_view = order_view (placed 150 7 5 market)

market-CanPlace : CanPlace 150 7 5 market
market-CanPlace = record {
  admitted = (refl, omega arith, omega arith);
  first = refl;
  stocked = refl;
}

-- The commit's answer is lost.
abbrev lost : Replies
lost Statement.commit = unacknowledged Fault.deadline_exceeded
lost _ = done

never_oversold_example :
    (1 + sales 5 (run_place quiet 150 none 7 5 market).1.orders ≡ 2)
    × OncePerUser (run_place quiet 150 none 7 5 market).1.orders
unfolding place orders_repository place_within order_transaction
never_oversold_example =
    never_oversold capacity market (run_place quiet 150 none 7 5 market).1 5
      (record sale { stock = 1 }) market-IsConsistent
      (later here (order_placed quiet 150 none 7 5 market)) refl

place_ok_example :
    ((run_place quiet 150 none 7 5 market).1 ≡ sell (placed 150 7 5 market) market)
    × (bought_view ≡ order_view (placed 150 7 5 market))
    × (0 < 7)
    × CanPlace 150 7 5 market
unfolding place orders_repository place_within order_transaction
place_ok_example = place_ok quiet 150 none 7 5 market bought_view refl

place_error_example :
    ((run_place lost 150 none 7 5 market).1 ≡ market)
    ⊎ ((is_unacknowledged (lost Statement.commit) ≡ true)
        × ((run_place lost 150 none 7 5 market).1 ≡ sell (placed 150 7 5 market) market)
        × CanPlace 150 7 5 market)
unfolding place orders_repository place_within order_transaction
place_error_example =
    place_error lost 150 none 7 5 market (Fault.wrap Kind.dependency Fault.deadline_exceeded) refl

place_complete_example :
    run_place quiet 150 none 7 5 market
    ≡ (ok (order_view (placed 150 7 5 market)), sell (placed 150 7 5 market) market)
place_complete_example =
    place_complete 150 7 5 market (omega arith) (omega arith) market-CanPlace refl refl

place-Refused_example :
    Refused 250 7 5 market
      (find (is_activity 5) market.activities)
      (classified (Fault.new Kind.activity_ended))
unfolding place orders_repository place_within order_transaction
place-Refused_example =
    place-Refused 250 7 5 market (Fault.new Kind.activity_ended) (omega arith) (omega arith) refl

abbrev staged_row : SeckillVoucher
staged_row = stage_row (bytes "0123456789abcdef0123456789abcdef") sale

stage_fences_example :
    (run_place quiet 150 none 7 5
      (run_stage quiet 150 (bytes "0123456789abcdef0123456789abcdef") 5 market).1).0
    ≢ ok bought_view
unfolding stage
stage_fences_example =
    stage_fences quiet 150 (bytes "0123456789abcdef0123456789abcdef") 5 market
      (run_stage quiet 150 (bytes "0123456789abcdef0123456789abcdef") 5 market).1 staged_row refl
      here quiet 150 none 7 bought_view
