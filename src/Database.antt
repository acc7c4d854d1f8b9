-- ===== src/Database.antt =====
-- The MySQL tables of the voucher and order components, and the statements that
-- internal/repository/order.go and async_order.go send. A statement is the SQL of the source run on
-- the tables; whether it is run and answered is a `Reply` that the environment chooses.
pub mod Laws
use local_life_go.Prelude.{
  ℕ, ◌+◌, ◌-◌, Bool, true, false, ◌&&◌, ◌||◌, not, Option, none, some, List, [], ◌∷◌, map, ltb,
  ◌==◌, find, any, count, if◌then◌else◌, Text, same_text,
}
use local_life_go.AppError.{
  Kind, Fault, classified, is_record_not_found, is_foreign_key_violated, is_duplicated_key,
}
use local_life_go.Model.{SeckillVoucher, VoucherOrder, SeckillResult}
use local_life_go.Effects.{first_row, Result, ok, err, M, Reply, done, failed, unacknowledged, send}

pub record Database : Type 0 where
  pub users : List ℕ
  pub vouchers : List ℕ
  pub activities : List SeckillVoucher
  pub orders : List VoucherOrder
  pub results : List SeckillResult
  pub next_id : ℕ

-- The statements of one call, by what they do; no call sends one of them twice.
pub data Statement : Type 0 where
  begin lock_activity read_clock find_order count_orders decrement_stock create_order : Statement
  update_activity find_result find_user create_result read_random scan_activities commit : Statement

abbrev pub Replies : Type 0
Replies = Statement → Reply

-- The environment answers every statement.
abbrev pub quiet : Replies
quiet _ = done

abbrev pub is_activity : ℕ → SeckillVoucher → Bool
is_activity id row = row.voucher_id == id

abbrev pub is_order_of : ℕ → ℕ → VoucherOrder → Bool
is_order_of user_id voucher_id row = row.user_id == user_id && row.voucher_id == voucher_id

-- SELECT … WHERE voucher_id = ?, by the primary key.
unfoldable pub select_activity : ℕ → Database → Result SeckillVoucher
select_activity id db = first_row (find (is_activity id) db.activities)

-- UPDATE … WHERE voucher_id = ?
abbrev pub update_rows :
    ℕ → (SeckillVoucher → SeckillVoucher) → List SeckillVoucher → List SeckillVoucher
update_rows id change [] = []
update_rows id change (row ∷ rows) =
    (if is_activity id row then change row else row) ∷ update_rows id change rows

abbrev pub is_in_stock : ℕ → SeckillVoucher → Bool
is_in_stock id row = row.voucher_id == id && ltb 0 row.stock

abbrev pub take_one : SeckillVoucher → SeckillVoucher
take_one row = if ltb 0 row.stock then record row { stock = row.stock - 1 } else row

-- UPDATE seckill_voucher SET stock = stock - 1 WHERE voucher_id = ? AND stock > 0; the result is
-- the number of rows affected.
unfoldable pub decrement : ℕ → M Database ℕ
decrement id db = (
  ok (count (is_in_stock id) db.activities),
  record db { activities = update_rows id take_one db.activities },
)

-- INSERT INTO voucher_order: the unique key, the foreign keys, and the next identifier.
unfoldable pub insert_order : VoucherOrder → M Database VoucherOrder
insert_order row db =
    let stored = record row { id = db.next_id } in
    let taken = any (is_order_of row.user_id row.voucher_id) db.orders in
    let known =
      any (λ u. u == row.user_id) db.users && any (λ v. v == row.voucher_id) db.vouchers in
    (
      if taken
          then err Fault.duplicated_key
          else if known
          then ok stored
          else err Fault.foreign_key_violated,
      if taken || not known
          then db
          else record db { orders = stored ∷ db.orders; next_id = db.next_id + 1 },
    )

-- INSERT INTO seckill_result: the primary key and the unique key of voucher, generation and user.
abbrev pub is_result_of : ℕ → Text → SeckillResult → Bool
is_result_of voucher_id event_id row =
    row.voucher_id == voucher_id && same_text row.event_id event_id

abbrev pub is_result_for : ℕ → Text → ℕ → SeckillResult → Bool
is_result_for voucher_id generation user_id row =
    row.voucher_id == voucher_id && same_text row.generation generation && row.user_id == user_id

unfoldable pub insert_result : SeckillResult → M Database SeckillResult
insert_result row db =
    let clash =
      any (is_result_of row.voucher_id row.event_id) db.results
      || any (is_result_for row.voucher_id row.generation row.user_id) db.results in
    (
      if clash then err Fault.duplicated_key else ok row,
      if clash then db else record db { results = row ∷ db.results },
    )

-- How a transaction ends: an error rolls back; a commit is answered, refused, or its answer lost.
unfoldable pub settle : {A : Type 0} → Reply → Database → Result A × Database → Result A × Database
settle reply before (err e, after) = (err e, before)
settle done before (ok a, after) = (ok a, after)
settle (failed e) before (ok a, after) = (err e, before)
settle (unacknowledged e) before (ok a, after) = (err e, after)

-- gorm.DB.Transaction
unfoldable pub transaction : {A : Type 0} → Replies → M Database A → M Database A
unfolding settle
transaction replies body db = elim (replies begin) [
  | done ↦ settle (replies commit) db (body db)
  | failed e ↦ (err e, db)
  | unacknowledged e ↦ (err e, db)
]

-- orderError of internal/repository/order.go.
unfoldable pub order_error : Fault → Fault
order_error e = elim (classified e) [
  | some _ ↦ e
  | none ↦
      if is_record_not_found e || is_foreign_key_violated e
      then Fault.wrap Kind.not_found e
      else if is_duplicated_key e
      then Fault.wrap Kind.already_purchased e
      else Fault.wrap Kind.dependency e
]
