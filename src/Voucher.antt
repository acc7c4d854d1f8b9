-- ===== src/Voucher.antt =====
-- The voucher service (internal/service/voucher.go) and its queries (internal/repository/voucher.go).
pub mod Laws
use local_life_go.Prelude.{
  ℕ, suc, ◌+◌, ◌-◌, ◌*◌, ◌≤◌, ◌<◌, ◌≡◌, ◌≢◌, refl, sym, ap, subst, ◌∙◌, ◌⊎◌, inl, inr, Bool, true,
  false, not, ◌&&◌, ◌||◌, Option, none, some, List, [], ◌∷◌, ◌++◌, map, arith, if◌then◌else◌, ltb,
  leb, ◌==◌, Bool-cases, Option-cases, is_some, length, take, drop, select, count, find, any, all,
  All, sort_by, Text, bytes, same_text, same_text_refl, same_text_sound, digits, format_uint,
  is_digit,
}
use local_life_go.Effects.{
  Result, ok, err, M, pure, raise, fail_if, attempt, from_result, map_error, map_result, ◌>>=◌,
  ◌>>◌, Reply, done, failed, unacknowledged, answer, written, query, send, first_row, is_ok,
  is_unacknowledged, Result-cases, Reply-cases, check_context, wrap_error,
}
use local_life_go.AppError.{is_record_not_found, Kind, Fault, classified, describe, kind_text}
use local_life_go.Paging.{Page, page_of, bad_page, valid_page}
use local_life_go.Paging.Laws.{window}
use local_life_go.Auth.{User, PublicUser, public_user}
use local_life_go.Model.{Voucher, VoucherWithActivity, SeckillVoucher}

pub data Status : Type 0 where
  active upcoming ended sold_out : Status

pub record VoucherActivityView : Type 0 where
  pub stock : ℕ
  pub begin_time : ℕ
  pub end_time : ℕ
  pub status : Status

pub record VoucherView : Type 0 where
  pub id : ℕ
  pub shop_id : ℕ
  pub title : Text
  pub pay_value : ℕ
  pub actual_value : ℕ
  pub seckill : Option VoucherActivityView

-- The tables that one statement joins.
pub record VoucherTables : Type 0 where
  pub vouchers : List Voucher
  pub activities : List SeckillVoucher

join_activity : Voucher → Option SeckillVoucher → VoucherWithActivity
join_activity voucher none = record {
  voucher = voucher;
  activity_id = none;
  stock = none;
  begin_time = none;
  end_time = none;
}
join_activity voucher (some row) = record {
  voucher = voucher;
  activity_id = some row.voucher_id;
  stock = some row.stock;
  begin_time = some row.begin_time;
  end_time = some row.end_time;
}

-- LEFT JOIN
unfoldable pub left_join : VoucherTables → Voucher → VoucherWithActivity
unfolding join_activity
left_join db voucher =
    join_activity voucher
      (find (λ (row : SeckillVoucher). row.voucher_id == voucher.id) db.activities)

abbrev voucher_error : Fault → Fault
voucher_error e =
    if is_record_not_found e then Fault.wrap Kind.not_found e else Fault.wrap Kind.dependency e

unfoldable pub by_id : Reply → ℕ → M VoucherTables VoucherWithActivity
unfolding left_join
by_id reply id = map_error voucher_error (
    query reply (λ db.
      map_result (left_join db)
        (first_row (find (λ (voucher : Voucher). voucher.id == id) db.vouchers))))

-- The vouchers of the table stand in the order of the primary key.
unfoldable pub select_vouchers : Reply → ℕ → ℕ → ℕ → M VoucherTables (List VoucherWithActivity)
unfolding left_join
select_vouchers reply shop_id offset limit = map_error voucher_error (
    query reply (λ db. ok (
      map (left_join db) (
        window offset limit (
          select (λ (voucher : Voucher). shop_id == 0 || voucher.shop_id == shop_id)
            db.vouchers)))))

unfoldable pub status_at : ℕ → ℕ → ℕ → ℕ → Status
status_at now begin_time end_time stock =
    if ltb now begin_time
    then upcoming
    else if not (ltb now end_time)
    then ended
    else if stock == 0
    then sold_out
    else active

activity_view : Option ℕ → Option ℕ → Option ℕ → ℕ → Result VoucherActivityView
unfolding status_at
activity_view (some stock) (some begin_time) (some end_time) now = ok (record {
  stock = stock;
  begin_time = begin_time;
  end_time = end_time;
  status = status_at now begin_time end_time stock;
})
activity_view _ _ _ now = err (Fault.new Kind.dependency)

plain_view : Voucher → Option VoucherActivityView → VoucherView
plain_view voucher seckill = record {
  id = voucher.id;
  shop_id = voucher.shop_id;
  title = voucher.title;
  pay_value = voucher.pay_value;
  actual_value = voucher.actual_value;
  seckill = seckill;
}

unfoldable pub voucher_view : VoucherWithActivity → ℕ → Result VoucherView
unfolding activity_view plain_view
voucher_view row now = elim (row.activity_id) [
  | none ↦ ok (plain_view row.voucher none)
  | some _ ↦
      map_result (λ activity. plain_view row.voucher (some activity))
        (activity_view row.stock row.begin_time row.end_time now)
]

-- The loop of List: the first row that cannot be shown ends it.
unfoldable pub voucher_views : List VoucherWithActivity → ℕ → Result (List VoucherView)
unfolding voucher_view
voucher_views [] now = ok []
voucher_views (row ∷ rows) now =
    let rest = voucher_views rows now in
    elim (voucher_view row now) [
      | err e ↦ err e
      | ok view ↦ map_result (λ views. view ∷ views) rest
    ]

module _ {S : Type 0} (now : ℕ) (ctx : Option Fault) where
  unfoldable pub detail : (ℕ → M S VoucherWithActivity) → ℕ → M S VoucherView
  unfolding voucher_view
  detail store id = do
    fail_if (id == 0) (Fault.new Kind.validation)
    check_context ctx
    row ← store id
    from_result (voucher_view row now)

  unfoldable pub list :
      (ℕ → ℕ → ℕ → M S (List VoucherWithActivity)) → ℕ → ℕ → ℕ → M S (Page VoucherView)
  unfolding voucher_views
  list store shop_id page size = do
    fail_if (bad_page page size) (Fault.new Kind.validation)
    check_context ctx
    rows ← store shop_id ((page - 1) * size) (size + 1)
    views ←
        from_result (voucher_views (if ltb size (length rows) then take size rows else rows) now)
    pure
        (record { items = views; page = page; page_size = size; has_more = ltb size (length rows) })
