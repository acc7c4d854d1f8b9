-- ===== src/Seckill/Recovery/Compensation.antt =====
-- Giving a unit back (seckill_compensate.lua): once for each failed event, however often it runs.
use local_life_go.Prelude.{
  digits-format_uint, ℕ, ◌+◌, ◌≤◌, ◌<◌, ◌≡◌, refl, sym, ap, subst, ◌∙◌, ◌⊎◌, inl, inr, true, none,
  some, arith, Bool-cases, Text, bytes, same_text, same_text_refl, same_text_sound, format_uint,
}
use local_life_go.Redis.{Key, holds, Hash, Stream, hget, hset}
use local_life_go.Redis.Laws.{hget-hset_self, hget-hset_ne, named, named-hset_new, named-hset_old}
use local_life_go.Seckill.{buyer_field, is_text, compensated_field, Keys}
use local_life_go.Seckill.Recovery.{compensate, compensate_in, returned}
use local_life_go.Seckill.Laws.{IsLedger, is_buyer, is_compensated}

module _ (id : Text) (h : Hash) (left capacity : ℕ) (ledger : IsLedger left capacity h)
    (new : hget (compensated_field id) h ≡ none) where
  restocked : Hash
  restocked = hset (bytes "stock") (format_uint (left + 1)) h

  still_new : hget (compensated_field id) restocked ≡ none
  unfolding same_text restocked
  still_new =
      hget-hset_ne (compensated_field id) (bytes "stock") (format_uint (left + 1)) h refl ∙ new

  returned-balance :
      left + 1 + named is_buyer (returned id (some left) h)
      ≡ capacity + named is_compensated (returned id (some left) h)
  unfolding restocked
  returned-balance = omega (
    arith,
    ledger.balance,
    named-hset_new is_buyer (compensated_field id) (bytes "1") restocked still_new,
    named-hset_new is_compensated (compensated_field id) (bytes "1") restocked still_new,
    named-hset_old is_buyer (bytes "stock") (format_uint (left + 1)) h (format_uint left)
        ledger.stocked,
    named-hset_old is_compensated (bytes "stock") (format_uint (left + 1)) h (format_uint left)
        ledger.stocked,
  )

  returned-marked :
      (other : Text)
      → (hget (compensated_field other) (returned id (some left) h) ≡ none)
        ⊎ (hget (compensated_field other) (returned id (some left) h) ≡ some (bytes "1"))
  unfolding same_text restocked
  returned-marked other =
      elim (Bool-cases (same_text (compensated_field id) (compensated_field other))) [
        | inl e ↦ inr (
            subst (λ f. hget f (returned id (some left) h) ≡ some (bytes "1"))
              (same_text_sound (compensated_field id) (compensated_field other) e)
              (hget-hset_self (compensated_field id) (bytes "1") restocked))
        | inr d ↦
            subst (λ v. (v ≡ none) ⊎ (v ≡ some (bytes "1")))
              (sym (
                hget-hset_ne (compensated_field other) (compensated_field id) (bytes "1") restocked
                  d
                ∙ hget-hset_ne (compensated_field other) (bytes "stock") (format_uint (left + 1)) h
                    refl))
              (ledger.marked other)
      ]

  returned-IsLedger : IsLedger (left + 1) capacity (returned id (some left) h)
  unfolding same_text restocked
  returned-IsLedger = record {
    stocked =
        hget-hset_ne (bytes "stock") (compensated_field id) (bytes "1") restocked refl
        ∙ hget-hset_self (bytes "stock") (format_uint (left + 1)) h;
    capped =
        hget-hset_ne (bytes "capacity") (compensated_field id) (bytes "1") restocked refl
        ∙ hget-hset_ne (bytes "capacity") (bytes "stock") (format_uint (left + 1)) h refl
        ∙ ledger.capped;
    exact_capacity = ledger.exact_capacity;
    balance = returned-balance;
    marked = returned-marked;
  }

module _ (user id generation : Text) (h : Hash) (left capacity : ℕ)
    (ledger : IsLedger left capacity h) where
  -- What a run that reports success has left: nothing new if the event was compensated before, else
  -- one unit more.
  Compensated : Key Hash → Type 0
  Compensated after =
      ((hget (compensated_field id) h ≡ some (bytes "1")) × (after ≡ holds h))
      ⊎ ((hget (compensated_field id) h ≡ none)
          × (left < capacity)
          × (after ≡ holds (returned id (some left) h)))

  compensate_in_ok :
      (compensate_in user id generation (holds h)).0 ≡ 1
      → Compensated (compensate_in user id generation (holds h)).1
  unfolding compensate_in Compensated
  compensate_in_ok one = elim (ledger.marked id) [
    | inl new ↦
        ground (
          arith,
          ledger.stocked,
          ledger.capped,
          digits-format_uint left,
          digits-format_uint capacity,
        )
    | inr old ↦ inl (old, ground (arith, same_text_refl (bytes "1")))
  ]

  -- The event belongs to the buyer and the generation of the hash.
  abbrev IsMine : Hash → Type 0
  IsMine g =
      (is_text generation (hget (bytes "generation") g) ≡ true)
      × (is_text id (hget (buyer_field user) g) ≡ true)

  ok-IsMine : (compensate_in user id generation (holds h)).0 ≡ 1 → IsMine h
  unfolding compensate_in
  ok-IsMine one = ground arith

  returned-IsMine : IsMine h → IsMine (returned id (some left) h)
  unfolding same_text
  returned-IsMine m = (
    ap (is_text generation) (
          hget-hset_ne (bytes "generation") (compensated_field id) (bytes "1") _ refl
          ∙ hget-hset_ne (bytes "generation") (bytes "stock") (format_uint (left + 1)) h refl)
        ∙ m.0,
    ap (is_text id) (
          hget-hset_ne (buyer_field user) (compensated_field id) (bytes "1") _ refl
          ∙ hget-hset_ne (buyer_field user) (bytes "stock") (format_uint (left + 1)) h refl)
        ∙ m.1,
  )

  again_in :
      (g : Hash)
      → IsMine g
      → hget (compensated_field id) g ≡ some (bytes "1")
      → compensate_in user id generation (holds g) ≡ (1, holds g)
  unfolding compensate_in
  again_in g m e = ground (arith, same_text_refl (bytes "1"))

  -- What a compensation that reports success leaves: at most one unit more, never above the
  -- capacity, the account in balance, and a second run that succeeds and changes nothing.
  abbrev Compensation : Key Hash → Type 0
  Compensation after =
      (h' : Hash) × (left' : ℕ) × (after ≡ holds h')
      × IsLedger left' capacity h'
      × (left ≤ left')
      × (left' ≤ left + 1)
      × (compensate_in user id generation after ≡ (1, after))

  Compensation-by : (after : Key Hash) → IsMine h → Compensated after → Compensation after
  unfolding Compensated
  Compensation-by after m (inl (old, same)) =
      (h, left, same, ledger, omega arith, omega arith, rw same (again_in h m old))
  Compensation-by after m (inr (new, less, changed)) = (
    returned id (some left) h,
    left + 1,
    changed,
    returned-IsLedger id h left capacity ledger new,
    omega arith,
    omega arith,
    rw changed (
        again_in (returned id (some left) h) (returned-IsMine m)
          (hget-hset_self (compensated_field id) (bytes "1") _)),
  )

abbrev pub run_compensate : Text → Text → Text → Hash → Key Stream → ℕ × Keys
run_compensate user id generation h events =
    compensate user id generation (record { state = holds h; events = events })

-- Compensation is idempotent: on a balanced account a run that reports success gives at most one
-- unit back and keeps the account in balance; run again for the same event it reports success and
-- changes nothing.
pub compensate_once :
    (user id generation : Text) (h : Hash) (events : Key Stream) (left capacity : ℕ)
    → IsLedger left capacity h
    → (run_compensate user id generation h events).0 ≡ 1
    → ((h' : Hash) × (left' : ℕ) × ((run_compensate user id generation h events).1.state ≡ holds h')
        × IsLedger left' capacity h'
        × (left ≤ left')
        × (left' ≤ left + 1))
      × (compensate user id generation (run_compensate user id generation h events).1
          ≡ (1, (run_compensate user id generation h events).1))
unfolding compensate
compensate_once user id generation h events left capacity l one =
    let (h', left', after, ledger, low, high, again) =
      Compensation-by user id generation h left capacity l
        (compensate_in user id generation (holds h)).1
        (ok-IsMine user id generation h left capacity l one)
        (compensate_in_ok user id generation h left capacity l one) in
    (
      (h', left', after, ledger, low, high),
      λ i. ((again i).0, record { state = (again i).1; events = events }),
    )
