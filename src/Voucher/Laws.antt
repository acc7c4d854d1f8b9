-- ===== src/Voucher/Laws.antt =====
-- What the service says of a voucher and its activity.
use local_life_go.Prelude.{
  ◌↔◌, ℕ, ◌≤◌, ◌<◌, ◌≡◌, refl, List, [], ◌∷◌, map, arith, ◌==◌, Option-cases, find,
}
use local_life_go.Effects.{ok, map_result, Result-cases}
use local_life_go.Model.{Voucher, SeckillVoucher}
use local_life_go.Voucher.{active, VoucherView, VoucherTables, left_join, status_at, voucher_views}

-- The four states of an activity are told apart by its window and its stock: it is active exactly
-- when it has begun, has not ended and has stock left.
pub status_at-active :
    (now begin_time end_time stock : ℕ)
    → (status_at now begin_time end_time stock ≡ active)
      ↔ ((begin_time ≤ now) × (now < end_time) × (0 < stock))
unfolding status_at
status_at-active now b e stock = ground arith

-- A voucher of the tables can always be shown: no page of the list and no detail fails for a row that
-- the join gives, and every row of it is shown, in order.
pub voucher_views-left_join :
    (db : VoucherTables) (vouchers : List Voucher) (now : ℕ)
    → map_result
        (map (λ (view : VoucherView). view.id))
        (voucher_views (map (left_join db) vouchers) now)
      ≡ ok (map (λ (voucher : Voucher). voucher.id) vouchers)
unfolding voucher_views left_join
voucher_views-left_join db [] now = refl
voucher_views-left_join db (voucher ∷ vouchers) now = ground (
  arith,
  voucher_views-left_join db vouchers now,
  Option-cases (find (λ (row : SeckillVoucher). row.voucher_id == voucher.id) db.activities),
  Result-cases (voucher_views (map (left_join db) vouchers) now),
)
