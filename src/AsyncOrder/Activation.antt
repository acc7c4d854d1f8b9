-- ===== src/AsyncOrder/Activation.antt =====
-- Changing the mode of an activity (Stage and Activate of internal/repository/async_order.go).
use local_life_go.Prelude.{
  [], ◌∷◌, ◌<◌, sym, none, ◌≤◌, refl, true, ◌≢◌, subst, arith, find, inr, same_text, All, inl, some,
  ◌⊎◌, Option, ◌≡◌, List, Text, ℕ,
}
use local_life_go.AsyncOrder.Repository.{stage, stage_row, activate, activate_row}
use local_life_go.Model.{VoucherOrder, SeckillVoucher}
use local_life_go.Database.{is_activity, update_rows, Database, Replies}
use local_life_go.Effects.{ok, Result}
use local_life_go.Database.Laws.{count-update_rows, sales, IsBalanced, IsConsistent}

-- A change of rows that keeps their key and their stock keeps the tables consistent.
update_rows-IsBalanced_keep :
    (id : ℕ) (change : SeckillVoucher → SeckillVoucher) (capacity : ℕ → ℕ)
    (orders : List VoucherOrder) (rows : List SeckillVoucher)
    → ((row : SeckillVoucher) → (change row).voucher_id ≡ row.voucher_id)
    → ((row : SeckillVoucher) → (change row).stock ≡ row.stock)
    → All (IsBalanced capacity orders) rows
    → All (IsBalanced capacity orders) (update_rows id change rows)
update_rows-IsBalanced_keep id change capacity orders [] key stock b = tt
update_rows-IsBalanced_keep id change capacity orders (row ∷ rows) key stock b = ground (
  arith,
  key row,
  stock row,
  update_rows-IsBalanced_keep id change capacity orders rows key stock b.1,
)

update_rows-IsConsistent :
    (id : ℕ) (change : SeckillVoucher → SeckillVoucher) (capacity : ℕ → ℕ) (db : Database)
    → ((row : SeckillVoucher) → (change row).voucher_id ≡ row.voucher_id)
    → ((row : SeckillVoucher) → (change row).stock ≡ row.stock)
    → IsConsistent capacity db
    → IsConsistent capacity (record db { activities = update_rows id change db.activities })
update_rows-IsConsistent id change capacity db key stock h = record {
  balanced =
      update_rows-IsBalanced_keep id change capacity db.orders db.activities key stock h.balanced;
  once = h.once;
  keys = λ k. subst (λ t. t ≤ 1) (sym (count-update_rows id k change db.activities key)) (h.keys k);
  fresh = h.fresh;
}

module _ (replies : Replies) (clock : ℕ) (token : Text) (id : ℕ) (db : Database) where
  abbrev pub run_stage : Result SeckillVoucher × Database
  run_stage = stage replies clock token id db

  -- What staging found: an activity that has left the synchronous mode is handed over as it is; an
  -- unused one, with stock and not yet over, is put into state 1 under the fresh token, and its
  -- capacity is the stock of that moment.
  abbrev pub Staged : SeckillVoucher → Option SeckillVoucher → Database → Type 0
  Staged row none after = ⊥
  Staged row (some old) after =
      ((old.async_state ≢ 0) × (row ≡ old) × (after ≡ db))
      ⊎ ((old.async_state ≡ 0)
          × (sales id db.orders ≡ 0)
          × (0 < old.stock)
          × (clock < old.end_time)
          × (row ≡ stage_row token old)
          × (after ≡ record db { activities = update_rows id (stage_row token) db.activities }))

  -- Staging that succeeds has handed over an activity that is asynchronous already, unchanged; or it
  -- has put an unused activity, in stock and not yet over, into state 1 under the fresh token, with
  -- the stock of that moment as its capacity, and has changed nothing else.
  pub stage_ok :
      (row : SeckillVoucher)
      → run_stage.0 ≡ ok row
      → Staged row (find (is_activity id) db.activities) run_stage.1
  unfolding stage
  stage_ok row h = ground arith

  pub stage-tables :
      (run_stage.1 ≡ db)
      ⊎ (run_stage.1 ≡ record db { activities = update_rows id (stage_row token) db.activities })
  unfolding stage
  stage-tables = ground arith

  pub stage-IsConsistent :
      (capacity : ℕ → ℕ) → IsConsistent capacity db → IsConsistent capacity run_stage.1
  stage-IsConsistent capacity h = elim stage-tables [
    | inl same ↦ rw same h
    | inr after ↦
        rw after
          (update_rows-IsConsistent id (stage_row token) capacity db (λ _. refl) (λ _. refl) h)
  ]

module _ (replies : Replies) (id : ℕ) (generation : Text) (db : Database) where
  abbrev pub run_activate : Result (Unit {0}) × Database
  run_activate = activate replies id generation db

  abbrev pub Activated : Option SeckillVoucher → Database → Type 0
  Activated none after = ⊥
  Activated (some old) after =
      (same_text old.async_generation generation ≡ true)
      × (((old.async_state ≡ 2) × (after ≡ db))
          ⊎ ((old.async_state ≡ 1)
              × (after ≡ record db { activities = update_rows id activate_row db.activities })))

  -- Activation that succeeds was of the generation that the activity carries: one that is active
  -- already stays as it is, and one that was staged becomes active and nothing else changes.
  pub activate_ok :
      run_activate.0 ≡ ok tt → Activated (find (is_activity id) db.activities) run_activate.1
  unfolding activate
  activate_ok h = ground arith

  pub activate-tables :
      (run_activate.1 ≡ db)
      ⊎ (run_activate.1 ≡ record db { activities = update_rows id activate_row db.activities })
  unfolding activate
  activate-tables = ground arith

  pub activate-IsConsistent :
      (capacity : ℕ → ℕ) → IsConsistent capacity db → IsConsistent capacity run_activate.1
  activate-IsConsistent capacity h = elim activate-tables [
    | inl same ↦ rw same h
    | inr after ↦
        rw after (update_rows-IsConsistent id activate_row capacity db (λ _. refl) (λ _. refl) h)
  ]
