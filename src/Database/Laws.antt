-- ===== src/Database/Laws.antt =====
-- The invariant of the voucher tables, and the one change of them that sells a unit.
use local_life_go.Prelude.{
  inl, inr, ◌⊎◌, is_some, ℕ, ◌+◌, ◌≤◌, ◌<◌, ◌≡◌, refl, sym, subst, Bool, true, false, some, List,
  [], ◌∷◌, arith, find, any, count, ◌==◌, All,
}
use local_life_go.Model.{SeckillVoucher, VoucherOrder}
use local_life_go.Database.{
  Statement, Replies, settle, transaction, Database, is_activity, is_order_of, is_in_stock,
  take_one, update_rows,
}
use local_life_go.Effects.{Reply-cases, Result-cases, is_unacknowledged, ok, is_ok, M}

-- One unit less of a voucher, and one order more.
abbrev pub sell : VoucherOrder → Database → Database
sell row db = record db {
  activities = update_rows row.voucher_id take_one db.activities;
  orders = row ∷ db.orders;
  next_id = db.next_id + 1;
}

abbrev pub is_sale_of : ℕ → VoucherOrder → Bool
is_sale_of voucher_id row = row.voucher_id == voucher_id

-- How many orders there are for a voucher.
abbrev pub sales : ℕ → List VoucherOrder → ℕ
sales voucher_id = count (is_sale_of voucher_id)

-- No user has two orders for one voucher.
abbrev pub OncePerUser : List VoucherOrder → Type 0
OncePerUser [] = Unit
OncePerUser (row ∷ rows) =
    (any (is_order_of row.user_id row.voucher_id) rows ≡ false) × OncePerUser rows

-- What is left and what is sold make up what there was.
abbrev pub IsBalanced : (ℕ → ℕ) → List VoucherOrder → SeckillVoucher → Type 0
IsBalanced capacity orders row = row.stock + sales row.voucher_id orders ≡ capacity row.voucher_id

pub record IsConsistent (capacity : ℕ → ℕ) (db : Database) : Type 0 where
  pub balanced : All (IsBalanced capacity db.orders) db.activities
  pub once : OncePerUser db.orders
  pub keys : (id : ℕ) → count (is_activity id) db.activities ≤ 1
  pub fresh : All (λ row. row.id < db.next_id) db.orders

abbrev HasStock : ℕ → SeckillVoucher → Type 0
HasStock id row = is_activity id row ≡ true → 0 < row.stock

none_matching :
    (id : ℕ) (rows : List SeckillVoucher) → count (is_activity id) rows ≤ 0 → All (HasStock id) rows
none_matching id [] h = tt
none_matching id (row ∷ rows) h = ground (arith, none_matching id rows)

in_stock-le :
    (id : ℕ) (rows : List SeckillVoucher)
    → count (is_in_stock id) rows ≤ count (is_activity id) rows
in_stock-le id [] = omega arith
in_stock-le id (row ∷ rows) = ground (arith, in_stock-le id rows)

-- Rows of one key, one of them in stock: all of them are.
All-in_stock :
    (id : ℕ) (rows : List SeckillVoucher)
    → count (is_activity id) rows ≤ 1
    → count (is_in_stock id) rows ≡ 1
    → All (HasStock id) rows
All-in_stock id [] k h = tt
All-in_stock id (row ∷ rows) k h =
    ground (arith, All-in_stock id rows, none_matching id rows, in_stock-le id rows)

update_rows-IsBalanced :
    (capacity : ℕ → ℕ) (order : VoucherOrder) (orders : List VoucherOrder)
    (rows : List SeckillVoucher)
    → All (HasStock order.voucher_id) rows
    → All (IsBalanced capacity orders) rows
    → All (IsBalanced capacity (order ∷ orders)) (update_rows order.voucher_id take_one rows)
update_rows-IsBalanced capacity order orders [] s b = tt
update_rows-IsBalanced capacity order orders (row ∷ rows) s b =
    ground (arith, update_rows-IsBalanced capacity order orders rows)

pub count-update_rows :
    (id key : ℕ) (change : SeckillVoucher → SeckillVoucher) (rows : List SeckillVoucher)
    → ((row : SeckillVoucher) → (change row).voucher_id ≡ row.voucher_id)
    → count (is_activity key) (update_rows id change rows) ≡ count (is_activity key) rows
count-update_rows id key change [] same = refl
count-update_rows id key change (row ∷ rows) same =
    ground (arith, same row, count-update_rows id key change rows same)

pub take_one-key : (row : SeckillVoucher) → (take_one row).voucher_id ≡ row.voucher_id
take_one-key row = ground arith

fresh_weaken :
    (n : ℕ) (rows : List VoucherOrder)
    → All (λ row. row.id < n) rows
    → All (λ row. row.id < n + 1) rows
fresh_weaken n [] h = tt
fresh_weaken n (row ∷ rows) h = (omega arith, fresh_weaken n rows h.1)

module _ (capacity : ℕ → ℕ) (order : VoucherOrder) (db : Database) where
  -- Selling a unit that is in stock to a user who has no order keeps the tables consistent.
  pub sell-IsConsistent :
      IsConsistent capacity db
      → order.id ≡ db.next_id
      → any (is_order_of order.user_id order.voucher_id) db.orders ≡ false
      → count (is_in_stock order.voucher_id) db.activities ≡ 1
      → IsConsistent capacity (sell order db)
  sell-IsConsistent h new first stocked = record {
    balanced =
        update_rows-IsBalanced capacity order db.orders db.activities
          (All-in_stock order.voucher_id db.activities (h.keys order.voucher_id) stocked)
          h.balanced;
    once = (first, h.once);
    keys = λ id.
        subst (λ t. t ≤ 1)
          (sym (count-update_rows order.voucher_id id take_one db.activities take_one-key))
          (h.keys id);
    fresh = (omega arith, fresh_weaken db.next_id db.orders h.fresh);
  }

found_balanced :
    (capacity : ℕ → ℕ) (id : ℕ) (orders : List VoucherOrder) (rows : List SeckillVoucher)
    → All (IsBalanced capacity orders) rows
    → (row : SeckillVoucher) → find (is_activity id) rows ≡ some row
    → row.stock + sales id orders ≡ capacity id
found_balanced capacity id orders [] b row f = cc
found_balanced capacity id orders (first ∷ rows) b row f =
    ground (arith, found_balanced capacity id orders rows b.1 row)

pub stock-add-sales :
    (capacity : ℕ → ℕ) (id : ℕ) (db : Database) (row : SeckillVoucher)
    → IsConsistent capacity db
    → find (is_activity id) db.activities ≡ some row
    → row.stock + sales id db.orders ≡ capacity id
stock-add-sales capacity id db row h f =
    found_balanced capacity id db.orders db.activities h.balanced row f

-- A transaction leaves the tables alone, or it leaves what its body has written; the latter without
-- a success only if the answer to the commit was lost.
pub transaction-cases :
    {A : Type 0} (replies : Replies) (body : M Database A) (db : Database)
    → (((transaction replies body db).1 ≡ db) × (is_ok (transaction replies body db).0 ≡ false))
      ⊎ ((a : A) × ((body db).0 ≡ ok a)
          × ((transaction replies body db).1 ≡ (body db).1)
          × (((transaction replies body db).0 ≡ ok a)
              ⊎ (is_unacknowledged (replies Statement.commit) ≡ true)))
unfolding transaction settle
transaction-cases replies body db = elim (Result-cases (body db).0) [
  | inr (e, failure) ↦ inl (ground arith)
  | inl (a, success) ↦ elim (Reply-cases (replies Statement.begin)) [
    | inl begun ↦ elim (Reply-cases (replies Statement.commit)) [
      | inl committed ↦ inr (a, success, ground arith, inl (ground arith))
      | inr (inl (e, refused)) ↦ inl (ground arith)
      | inr (inr (e, lost)) ↦ inr (a, success, ground arith, inr (ground arith))
    ]
    | inr (inl (e, refused)) ↦ inl (ground arith)
    | inr (inr (e, lost)) ↦ inl (ground arith)
  ]
]

pub find-update_rows :
    (key id : ℕ) (change : SeckillVoucher → SeckillVoucher) (rows : List SeckillVoucher)
    → ((row : SeckillVoucher) → (change row).voucher_id ≡ row.voucher_id)
    → is_some (find (is_activity id) (update_rows key change rows))
      ≡ is_some (find (is_activity id) rows)
find-update_rows key id change [] same = refl
find-update_rows key id change (row ∷ rows) same =
    ground (arith, same row, find-update_rows key id change rows same)
