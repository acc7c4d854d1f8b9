-- ===== src/Seckill/Laws.antt =====
-- Admission to an activity is accounted for: each admission takes one unit for one buyer, each
-- compensation gives one back, and everything else leaves the keys alone.
use local_life_go.Prelude.{
  length-append, digits-format_uint, ℕ, ◌+◌, ◌-◌, ◌≤◌, ◌<◌, ◌≡◌, refl, sym, ap, subst, ◌∙◌, ◌⊎◌,
  inl, inr, Bool, true, false, ◌&&◌, Option, none, some, List, [], ◌∷◌, ◌++◌, arith, ◌==◌,
  Bool-cases, is_some, length, Text, bytes, same_text, format_uint,
}
use local_life_go.Redis.{Key, absent, other_type, holds, Hash, Stream, hget, hset}
use local_life_go.Redis.Laws.{hget-hset_self, hget-hset_ne, named, named-hset_new, named-hset_old}
use local_life_go.Seckill.{
  compensated_field, entry_fields, enqueue, bought, buyer_field, reserve_in, integer, is_generation,
  snapshot, reserve, Snapshot, lua_exact_integer, Keys, Server,
}

abbrev pub starts_with : Text → Text → Bool
starts_with [] s = true
starts_with (c ∷ p) [] = false
starts_with (c ∷ p) (d ∷ s) = c == d && starts_with p s

starts_with-append : (p s : Text) → starts_with p (p ++ s) ≡ true
starts_with-append [] s = refl
starts_with-append (c ∷ p) s = ground (arith, starts_with-append p s)

abbrev pub is_buyer : Text → Bool
is_buyer = starts_with (bytes "buyer:")

abbrev pub is_compensated : Text → Bool
is_compensated = starts_with (bytes "compensated:")

-- What is left, and who holds a unit: the units that were admitted and not given back.
pub record IsLedger (left capacity : ℕ) (h : Hash) : Type 0 where
  pub stocked : hget (bytes "stock") h ≡ some (format_uint left)
  pub capped : hget (bytes "capacity") h ≡ some (format_uint capacity)
  pub exact_capacity : capacity ≤ lua_exact_integer
  pub balance : left + named is_buyer h ≡ capacity + named is_compensated h
  pub marked :
      (id : Text)
      → (hget (compensated_field id) h ≡ none) ⊎ (hget (compensated_field id) h ≡ some (bytes "1"))

module _ (h : Hash) (snap : Snapshot) (e : snapshot h ≡ some snap) where
  pub snapshot-generation : hget (bytes "generation") h ≡ some snap.generation
  unfolding snapshot
  snapshot-generation = ground arith

  snapshot-stock : integer (hget (bytes "stock") h) ≡ some snap.stock
  unfolding snapshot
  snapshot-stock = ground arith

  pub snapshot_bounds :
      (snap.stock ≤ snap.capacity)
      × (snap.begin_ms < snap.end_ms)
      × (is_generation snap.generation ≡ true)
  unfolding snapshot
  snapshot_bounds = ground arith

stock-left :
    (h : Hash) (snap : Snapshot) (left capacity : ℕ)
    → snapshot h ≡ some snap
    → IsLedger left capacity h
    → snap.stock ≡ left
stock-left h snap left capacity e l =
    ground (arith, snapshot-stock h snap e, digits-format_uint left, l.stocked)

accepted_words : Text → Text → Text → List Text
accepted_words id generation stamp = bytes "accepted" ∷ id ∷ generation ∷ stamp ∷ []

abbrev pub is_accepted : List Text → Bool
is_accepted [] = false
is_accepted (code ∷ _) = same_text code (bytes "accepted")

reserve_in_unchanged :
    (server : Server) (voucher user : Text) (expected : Option Text) (state : Key Hash)
    (events : Key Stream)
    → is_accepted (reserve_in server voucher user expected state events).0 ≡ false
    → (reserve_in server voucher user expected state events).1
      ≡ record { state = state; events = events }
unfolding reserve_in same_text
reserve_in_unchanged server voucher user expected (holds h) (holds s) n = ground arith
reserve_in_unchanged server voucher user expected (holds h) absent n = refl
reserve_in_unchanged server voucher user expected (holds h) other_type n = refl
reserve_in_unchanged server voucher user expected absent events n = refl
reserve_in_unchanged server voucher user expected other_type events n = refl

-- A refusal, whatever its reason, leaves both keys as they were: no unit is taken and no entry left.
pub reserve_unchanged :
    (server : Server) (voucher user : Text) (expected : Option Text) (keys : Keys)
    → is_accepted (reserve server voucher user expected keys).0 ≡ false
    → (reserve server voucher user expected keys).1 ≡ keys
unfolding reserve
reserve_unchanged server voucher user expected keys n =
    reserve_in_unchanged server voucher user expected keys.state keys.events n

-- An admission, step by step: the entry is new, the buyer has the ticket, and the counts move.
module _ (user id : Text) (snap : Snapshot) (h : Hash) (left capacity : ℕ)
    (ledger : IsLedger left capacity h) (new : hget (buyer_field user) h ≡ none)
    (same : snap.stock ≡ left) (some_left : 0 < left) where
  stored_stock : Hash
  stored_stock = hset (bytes "stock") (format_uint (snap.stock - 1)) h

  still_new : hget (buyer_field user) stored_stock ≡ none
  unfolding same_text stored_stock
  still_new =
      hget-hset_ne (buyer_field user) (bytes "stock") (format_uint (snap.stock - 1)) h refl ∙ new

  bought-balance :
      left - 1 + named is_buyer (bought user id snap h)
      ≡ capacity + named is_compensated (bought user id snap h)
  unfolding stored_stock
  bought-balance = omega (
    arith,
    ledger.balance,
    named-hset_new is_buyer (buyer_field user) id stored_stock still_new,
    named-hset_new is_compensated (buyer_field user) id stored_stock still_new,
    named-hset_old is_buyer (bytes "stock") (format_uint (snap.stock - 1)) h (format_uint left)
        ledger.stocked,
    named-hset_old is_compensated (bytes "stock") (format_uint (snap.stock - 1)) h
        (format_uint left) ledger.stocked,
  )

  bought-IsLedger : IsLedger (left - 1) capacity (bought user id snap h)
  unfolding same_text stored_stock
  bought-IsLedger = record {
    stocked =
        hget-hset_ne (bytes "stock") (buyer_field user) id stored_stock refl
        ∙ hget-hset_self (bytes "stock") (format_uint (snap.stock - 1)) h
        ∙ ap (λ t. some (format_uint (t - 1))) same;
    capped =
        hget-hset_ne (bytes "capacity") (buyer_field user) id stored_stock refl
        ∙ hget-hset_ne (bytes "capacity") (bytes "stock") (format_uint (snap.stock - 1)) h refl
        ∙ ledger.capped;
    exact_capacity = ledger.exact_capacity;
    balance = bought-balance;
    marked = λ other.
        subst (λ v. (v ≡ none) ⊎ (v ≡ some (bytes "1")))
          (sym (
            hget-hset_ne (compensated_field other) (buyer_field user) id stored_stock refl
            ∙ hget-hset_ne (compensated_field other) (bytes "stock") (format_uint (snap.stock - 1))
                h refl))
          (ledger.marked other);
  }

-- What an accepted reservation has found and has done.
module _ (server : Server) (voucher user : Text) (expected : Option Text) (h : Hash)
    (s : Stream) where
  abbrev pub run_reserve : List Text × Keys
  run_reserve = reserve server voucher user expected (record { state = holds h; events = holds s })

  -- The snapshot and the ticket of an admission.
  abbrev pub Accepted : Option Snapshot → Option Text → Type 0
  Accepted (some snap) (some id) =
      (run_reserve.0 ≡ bytes "accepted" ∷ id ∷ snap.generation ∷ format_uint server.now_ms ∷ [])
      × (run_reserve.1 ≡ record {
        state = holds (bought user id snap h);
        events =
            holds (
              enqueue id (entry_fields voucher user snap.generation (format_uint server.now_ms)) s);
      })
      × (hget (buyer_field user) h ≡ none)
      × (0 < snap.stock)
      × (snap.begin_ms ≤ server.now_ms)
      × (server.now_ms < snap.end_ms)
  Accepted none _ = ⊥
  Accepted _ none = ⊥

  pub reserve-Accepted : is_accepted run_reserve.0 ≡ true → Accepted (snapshot h) server.added
  unfolding reserve same_text
  reserve-Accepted a = ground arith

  abbrev pub Admitted : ℕ → ℕ → Type 0
  Admitted left capacity =
      (h' : Hash) × (s' : Stream) × (run_reserve.1 ≡ record { state = holds h'; events = holds s' })
      × IsLedger (left - 1) capacity h'
      × (0 < left)
      × (hget (buyer_field user) h ≡ none)
      × (is_some (hget (buyer_field user) h') ≡ true)
      × (length s'.entries ≡ length s.entries + 1)

  Admitted-by :
      (left capacity : ℕ) (found : Option Snapshot) (added : Option Text)
      → snapshot h ≡ found
      → IsLedger left capacity h
      → Accepted found added
      → Admitted left capacity
  Admitted-by left capacity none added e l a = absurd a
  Admitted-by left capacity (some snap) none e l a = absurd a
  Admitted-by left capacity (some snap) (some id) e l (_, after, new, stocked, _, _) =
      let same = stock-left h snap left capacity e l in
      let some_left = subst (λ n. 0 < n) same stocked in
      (
        bought user id snap h,
        enqueue id (entry_fields voucher user snap.generation (format_uint server.now_ms)) s,
        after,
        bought-IsLedger user id snap h left capacity l new same some_left,
        some_left,
        new,
        ap is_some (
            hget-hset_self (buyer_field user) id
              (hset (bytes "stock") (format_uint (snap.stock - 1)) h)),
        length-append s.entries _,
      )

  -- An accepted reservation takes exactly one unit that was there, for a user who had none, and
  -- leaves exactly one event; the account of units and buyers stays balanced.
  pub reserve_admits :
      (left capacity : ℕ)
      → IsLedger left capacity h
      → is_accepted run_reserve.0 ≡ true
      → Admitted left capacity
  reserve_admits left capacity l a =
      Admitted-by left capacity (snapshot h) server.added refl l (reserve-Accepted a)

  has_ticket :
      (found : Option Snapshot) (added : Option Text)
      → Accepted found added
      → hget (buyer_field user) h ≡ none
  has_ticket none added a = absurd a
  has_ticket (some snap) none a = absurd a
  has_ticket (some snap) (some id) a = a.2

  -- A user with a ticket gets no second one.
  pub refused_again : is_some (hget (buyer_field user) h) ≡ true → is_accepted run_reserve.0 ≡ false
  refused_again t = elim (Bool-cases (is_accepted run_reserve.0)) [
    | inl a ↦ cc (t, has_ticket (snapshot h) server.added (reserve-Accepted a))
    | inr n ↦ n
  ]
