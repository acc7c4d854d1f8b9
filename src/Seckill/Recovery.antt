-- ===== src/Seckill/Recovery.antt =====
-- The other scripts of an activity: its preparation, its check, the receipt of an admission and the
-- compensation of one that failed (internal/cache/lua/seckill_{prepare,check,receipt,compensate}.lua).
pub mod Receipts
pub mod Preparation
pub mod Compensation
use local_life_go.Prelude.{
  ℕ, suc, ◌+◌, ◌-◌, ◌*◌, ◌≤◌, ◌<◌, ◌≡◌, ◌≢◌, refl, sym, ap, subst, ◌∙◌, ◌⊎◌, inl, inr, Bool, true,
  false, not, ◌&&◌, ◌||◌, Option, none, some, List, [], ◌∷◌, ◌++◌, map, arith, if◌then◌else◌, ltb,
  leb, ◌==◌, Bool-cases, Option-cases, is_some, length, take, drop, select, count, find, any, all,
  All, sort_by, Text, bytes, same_text, same_text_refl, same_text_sound, digits, format_uint,
  is_digit,
}
use local_life_go.Redis.{Key, absent, other_type, holds, Hash, Stream, Entry, hget, hset}
use local_life_go.Seckill.{
  has_group, is_stream_id, compensated_field, buyer_field, is_text, lua_exact_integer, parsed,
  dependency_failure, Keys, Server,
}

-- seckill_prepare.lua: both keys are new, or nothing is touched. Here `stored` says whether HSET
-- took, and `added` whether XGROUP CREATE did.
abbrev pub initial_state : Text → Text → Text → Text → Hash
initial_state generation stock begin_ms end_ms =
    (bytes "version", bytes "1")
    ∷ (bytes "generation", generation)
    ∷ (bytes "stock", stock)
    ∷ (bytes "capacity", stock)
    ∷ (bytes "begin_ms", begin_ms)
    ∷ (bytes "end_ms", end_ms)
    ∷ []

abbrev pub empty_stream : Stream
empty_stream = record { entries = []; groups = bytes "orders" ∷ []; pending = [] }

prepare_in : Server → Text → Text → Text → Text → Key Hash → Key Stream → Text × Keys
prepare_in server generation stock begin_ms end_ms absent absent =
    let created = server.allowed && is_some server.added && server.stored in
    (
      if created then bytes "ok" else bytes "dependency_failure",
      record {
        state = if created then holds (initial_state generation stock begin_ms end_ms) else absent;
        events = if created then holds empty_stream else absent;
      },
    )
prepare_in server generation stock begin_ms end_ms state events =
    (bytes "conflict", record { state = state; events = events })

unfoldable pub prepare : Server → Text → Text → Text → Text → Keys → Text × Keys
unfolding prepare_in
prepare server generation stock begin_ms end_ms keys =
    prepare_in server generation stock begin_ms end_ms keys.state keys.events

-- seckill_check.lua: the keys are those of this snapshot, and untouched if that is asked for.
abbrev pub within : Option ℕ → ℕ → Bool
within none capacity = false
within (some stock) capacity = leb stock capacity

check_in : Text → ℕ → Text → Text → Bool → Key Hash → Key Stream → ℕ
check_in generation capacity begin_ms end_ms pristine (holds h) (holds s) =
    if not (is_text (bytes "1") (hget (bytes "version") h))
      || not (is_text generation (hget (bytes "generation") h))
      || not (is_text (format_uint capacity) (hget (bytes "capacity") h))
      || not (is_text begin_ms (hget (bytes "begin_ms") h))
      || not (is_text end_ms (hget (bytes "end_ms") h))
    then 0
    else if not (within (parsed (hget (bytes "stock") h)) capacity)
    then 0
    else if pristine
        && (not (is_text (format_uint capacity) (hget (bytes "stock") h))
            || not (length s.entries == 0)
            || not (length h == 6))
    then 0
    else if has_group s
    then 1
    else 0
check_in generation capacity begin_ms end_ms pristine state events = 0

unfoldable pub check : Text → ℕ → Text → Text → Bool → Keys → ℕ
unfolding check_in
check generation capacity begin_ms end_ms pristine keys =
    check_in generation capacity begin_ms end_ms pristine keys.state keys.events

-- seckill_compensate.lua: one unit comes back, once for each event.
abbrev pub can_return : Option ℕ → Option ℕ → Bool
can_return (some stock) (some capacity) = ltb stock capacity && leb capacity lua_exact_integer
can_return _ _ = false

abbrev pub returned : Text → Option ℕ → Hash → Hash
returned id none h = h
returned id (some stock) h =
    hset (compensated_field id) (bytes "1") (hset (bytes "stock") (format_uint (stock + 1)) h)

compensate_in : Text → Text → Text → Key Hash → ℕ × Key Hash
compensate_in user id generation (holds h) =
    let stock = parsed (hget (bytes "stock") h) in
    let mine =
      is_text generation (hget (bytes "generation") h) && is_text id (hget (buyer_field user) h) in
    let done_before = is_text (bytes "1") (hget (compensated_field id) h) in
    let possible = can_return stock (parsed (hget (bytes "capacity") h)) in
    (
      if mine && (done_before || possible) then 1 else 0,
      holds (if mine && not done_before && possible then returned id stock h else h),
    )
compensate_in user id generation state = (0, state)

unfoldable pub compensate : Text → Text → Text → Keys → ℕ × Keys
unfolding compensate_in
compensate user id generation keys =
    let (n, state) = compensate_in user id generation keys.state in
    (n, record keys { state = state })

-- seckill_receipt.lua
has_duplicate : Hash → Bool
has_duplicate [] = false
has_duplicate ((name, _) ∷ h) = is_some (hget name h) || has_duplicate h

-- The fields that the reply hands over; the entry is of the generation of the activity.
abbrev pub receipt_data : Text → Option Text → Option Text → Option Text → List Text
receipt_data id (some generation) (some current) (some stamp) =
    if same_text current generation
    then bytes "accepted" ∷ id ∷ generation ∷ stamp ∷ []
    else dependency_failure
receipt_data id _ _ _ = dependency_failure

receipt_of : Text → Text → Text → Hash → List Entry → List Text
unfolding has_duplicate
receipt_of voucher user id h (entry ∷ []) =
    if not (length entry.fields == 4) || has_duplicate entry.fields
    then dependency_failure
    else if not (is_text voucher (hget (bytes "voucher_id") entry.fields))
        || not (is_text user (hget (bytes "user_id") entry.fields))
    then dependency_failure
    else receipt_data id (hget (bytes "generation") entry.fields) (hget (bytes "generation") h)
        (hget (bytes "accepted_ms") entry.fields)
receipt_of voucher user id h entries = dependency_failure

receipt_in : Text → Text → Key Hash → Key Stream → List Text
unfolding receipt_of
receipt_in voucher user (holds h) (holds s) = elim (hget (buyer_field user) h) [
  | none ↦ bytes "not_found" ∷ []
  | some id ↦
      if is_stream_id id
      then receipt_of voucher user id h (select (λ entry. same_text entry.id id) s.entries)
      else dependency_failure
]
receipt_in voucher user state events = dependency_failure

unfoldable pub receipt : Text → Text → Keys → List Text
unfolding receipt_in
receipt voucher user keys = receipt_in voucher user keys.state keys.events
