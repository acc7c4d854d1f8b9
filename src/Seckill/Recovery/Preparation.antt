-- ===== src/Seckill/Recovery/Preparation.antt =====
-- What a preparation leaves (seckill_prepare.lua): an activity that passes the check of a fresh one
-- (seckill_check.lua), with its account in balance.
use local_life_go.Prelude.{
  ℕ, ◌≤◌, ◌≡◌, refl, inl, inr, true, ◌&&◌, arith, Bool-cases, is_some, Text, bytes, same_text,
  same_text_refl, format_uint,
}
use local_life_go.Prelude.{digits-format_uint}
use local_life_go.Redis.{Key, absent, other_type, holds, Hash, Stream, hget}
use local_life_go.Seckill.{Keys, Server, lua_exact_integer}
use local_life_go.Seckill.Laws.{IsLedger}
use local_life_go.Seckill.Recovery.{prepare, check, initial_state, empty_stream}

abbrev pub run_prepare : Server → Text → ℕ → Text → Text → Key Hash → Key Stream → Text × Keys
run_prepare server generation stock begin_ms end_ms state events =
    prepare server generation (format_uint stock) begin_ms end_ms
      (record { state = state; events = events })

-- The state of an activity of which nothing is sold.
abbrev pub IsFresh : ℕ → Key Hash → Type 0
IsFresh stock (holds h) = IsLedger stock stock h
IsFresh stock absent = ⊥
IsFresh stock other_type = ⊥

initial_state-IsLedger :
    (generation begin_ms end_ms : Text) (stock : ℕ)
    → stock ≤ lua_exact_integer
    → IsLedger stock stock (initial_state generation (format_uint stock) begin_ms end_ms)
unfolding hget same_text
initial_state-IsLedger generation begin_ms end_ms stock u = record {
  stocked = refl;
  capped = refl;
  exact_capacity = u;
  balance = refl;
  marked = λ id. inl refl;
}

check-initial :
    (generation begin_ms end_ms : Text) (stock : ℕ)
    → check generation stock begin_ms end_ms true (record {
      state = holds (initial_state generation (format_uint stock) begin_ms end_ms);
      events = holds empty_stream;
    })
      ≡ 1
unfolding check hget same_text
check-initial generation begin_ms end_ms stock = ground (
  arith,
  digits-format_uint stock,
  same_text_refl generation,
  same_text_refl begin_ms,
  same_text_refl end_ms,
  same_text_refl (format_uint stock),
)

-- A prepared activity is open: a preparation that answers "ok", of a stock that Lua holds exactly, has
-- found both keys absent and leaves an activity that passes the check of a fresh one, whose units are
-- all left and whose account is balanced.
pub prepare_opens :
    (server : Server) (generation begin_ms end_ms : Text) (stock : ℕ) (state : Key Hash)
    (events : Key Stream)
    → stock ≤ lua_exact_integer
    → same_text (run_prepare server generation stock begin_ms end_ms state events).0 (bytes "ok")
      ≡ true
    → (state ≡ absent)
      × (events ≡ absent)
      × IsFresh stock (run_prepare server generation stock begin_ms end_ms state events).1.state
      × (check generation stock begin_ms end_ms true
            (run_prepare server generation stock begin_ms end_ms state events).1
          ≡ 1)
unfolding prepare same_text
prepare_opens server generation begin_ms end_ms stock absent absent u h =
    elim (Bool-cases (server.allowed && is_some server.added && server.stored)) [
      | inl created ↦ rw created (
        refl,
        refl,
        initial_state-IsLedger generation begin_ms end_ms stock u,
        check-initial generation begin_ms end_ms stock,
      )
      | inr refused ↦ absurd (ground arith)
    ]
prepare_opens server generation begin_ms end_ms stock (holds _) events u h = absurd (ground arith)
prepare_opens server generation begin_ms end_ms stock other_type events u h = absurd (ground arith)
prepare_opens server generation begin_ms end_ms stock absent (holds _) u h = absurd (ground arith)
prepare_opens server generation begin_ms end_ms stock absent other_type u h = absurd (ground arith)
