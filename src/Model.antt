-- ===== src/Model.antt =====
-- The entities of internal/model. A time is a number of milliseconds of UTC since 1970, which is
-- what DATETIME(3) and UnixMilli keep; an unsigned column and an identifier are numbers.
use local_life_go.Prelude.{ℕ, Option, Text, ℤ}

-- internal/model/voucher.go
pub record Voucher : Type 0 where
  pub id : ℕ
  pub shop_id : ℕ
  pub title : Text
  pub pay_value : ℕ
  pub actual_value : ℕ
  pub created_at : ℕ
  pub updated_at : ℕ

-- `stock` and `async_capacity` are int64 columns that the schema keeps non-negative.
pub record SeckillVoucher : Type 0 where
  pub async_state : ℕ
  pub async_generation : Text
  pub async_capacity : ℕ
  pub voucher_id : ℕ
  pub stock : ℕ
  pub begin_time : ℕ
  pub end_time : ℕ

-- A row of the left join: no activity column is set on an ordinary voucher.
pub record VoucherWithActivity : Type 0 where
  pub voucher : Voucher
  pub activity_id : Option ℕ
  pub stock : Option ℕ
  pub begin_time : Option ℕ
  pub end_time : Option ℕ

-- internal/model/order.go
pub record VoucherOrder : Type 0 where
  pub id : ℕ
  pub user_id : ℕ
  pub voucher_id : ℕ
  pub status : ℕ
  pub created_at : ℕ
  pub updated_at : ℕ

-- internal/model/seckill.go
pub record SeckillSeed : Type 0 where
  pub voucher_id : ℕ
  pub generation : Text
  pub stock : ℤ
  pub begin_time : ℤ
  pub end_time : ℤ

pub record SeckillEvent : Type 0 where
  pub id : Text
  pub voucher_id : ℕ
  pub user_id : ℕ
  pub generation : Text
  pub accepted_at : ℕ

-- The values of `Status` and `Reason` that the code writes.
pub data Outcome : Type 0 where
  created failed : Outcome

pub data Reason : Type 0 where
  no_reason outside_activity_window user_not_found already_purchased sold_out : Reason

pub record SeckillResult : Type 0 where
  pub voucher_id : ℕ
  pub event_id : Text
  pub generation : Text
  pub user_id : ℕ
  pub order_id : Option ℕ
  pub status : Outcome
  pub reason : Reason
  pub accepted_at : ℕ
