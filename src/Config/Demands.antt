-- ===== src/Config/Demands.antt =====
-- The demands of LoadFrom of internal/config/config.go on the environment, in the order of the code.
use local_life_go.Prelude.{
  arith, All, ◌||◌, inr, is_some, inl, true, [], pos, ltb_ℤ, refl, Bool-cases, not, ◌*◌,
  if◌then◌else◌, ℤ, ◌∷◌, ◌≡◌, bytes, some, Bool, none, Option, Text, List, ℕ,
}
use local_life_go.Config.{
  is_local, is_true, integer_of, duration_of, second, value_or, is_addr, at_least, noted, text_of,
  is_filled, above, at_least_reason, required_reason, settings, addr_reason, parse_bool,
  positive_reason, Invalid, Library,
}
use local_life_go.Effects.{is_ok}

-- A demand on the environment: the key and the reason to name, and whether it is met.
pub record Demand : Type 0 where
  pub error : Invalid
  pub is_met : Bool

abbrev pub demand : Text → Text → Bool → Demand
demand key reason test = record { error = record { key = key; reason = reason }; is_met = test }

-- The first demand that is not met.
abbrev pub first_unmet : List Demand → Option Invalid
first_unmet [] = none
first_unmet (d ∷ ds) = if d.is_met then first_unmet ds else some d.error

abbrev pub note_all : List Demand → Option Invalid → Option Invalid
note_all [] first = first
note_all (d ∷ ds) first = note_all ds (noted d.is_met d.error.key d.error.reason first)

pub note_all-some : (ds : List Demand) (e : Invalid) → note_all ds (some e) ≡ some e
note_all-some [] e = refl
note_all-some (d ∷ ds) e = elim (Bool-cases d.is_met) [
  | inl met ↦ rw met (note_all-some ds e)
  | inr unmet ↦ rw unmet (note_all-some ds e)
]

pub note_all-none : (ds : List Demand) → note_all ds none ≡ first_unmet ds
note_all-none [] = refl
note_all-none (d ∷ ds) = elim (Bool-cases d.is_met) [
  | inl met ↦ rw met (note_all-none ds)
  | inr unmet ↦ rw unmet (note_all-some ds d.error)
]

module _ (lib : Library) (lookup : Text → Option Text) where
  abbrev pub a_duration : Text → ℕ → Demand
  a_duration key fallback =
      demand key positive_reason (above (pos 0) (duration_of lib lookup key fallback))

  abbrev pub an_integer : Text → ℕ → ℕ → Demand
  an_integer key fallback low =
      demand key (at_least_reason low) (at_least (pos low) (integer_of lib lookup key fallback))

  abbrev pub an_addr : Text → Text → Demand
  an_addr key fallback =
      demand key addr_reason (is_addr lib lookup (text_of lib lookup key fallback))

  abbrev pub a_text : Text → Text → Demand
  a_text key fallback =
      demand key required_reason (is_filled lib lookup (text_of lib lookup key fallback))

  abbrev pub number : Text → ℕ → ℤ
  number key fallback = value_or (pos 0) (integer_of lib lookup key fallback)

  abbrev pub a_second : Text → ℕ → Demand
  a_second key fallback =
      demand key (bytes "must be at least 1s")
        (not (ltb_ℤ (value_or (pos 0) (duration_of lib lookup key fallback)) (pos second)))

  abbrev pub dev_codes : Option Bool
  dev_codes = parse_bool (text_of lib lookup (bytes "AUTH_DEV_CODES") (bytes "false"))

  -- The demands of the settings in order.
  abbrev pub demands : List Demand
  demands =
      a_text (bytes "UPLOAD_DIR") (bytes "uploads")
      ∷ an_addr (bytes "HTTP_ADDR") (bytes "127.0.0.1:8080")
      ∷ a_duration (bytes "HTTP_REQUEST_TIMEOUT") (3 * second)
      ∷ a_duration (bytes "STARTUP_TIMEOUT") (10 * second)
      ∷ a_duration (bytes "SHUTDOWN_TIMEOUT") (10 * second)
      ∷ a_duration (bytes "DEPENDENCY_TIMEOUT") (2 * second)
      ∷ an_addr (bytes "MYSQL_ADDR") (bytes "127.0.0.1:3306")
      ∷ a_text (bytes "MYSQL_USER") (bytes "locallife")
      ∷ a_text (bytes "MYSQL_DATABASE") (bytes "locallife")
      ∷ an_integer (bytes "MYSQL_MAX_OPEN_CONNS") 20 1
      ∷ an_integer (bytes "MYSQL_MAX_IDLE_CONNS") 10 0
      ∷ a_duration (bytes "MYSQL_CONN_MAX_LIFETIME") (180 * second)
      ∷ demand (bytes "MYSQL_MAX_IDLE_CONNS") (bytes "must not exceed MYSQL_MAX_OPEN_CONNS") (
          not (
            ltb_ℤ (number (bytes "MYSQL_MAX_OPEN_CONNS") 20)
              (number (bytes "MYSQL_MAX_IDLE_CONNS") 10)))
      ∷ an_addr (bytes "REDIS_ADDR") (bytes "127.0.0.1:6379")
      ∷ an_integer (bytes "REDIS_DB") 0 0
      ∷ an_integer (bytes "REDIS_POOL_SIZE") 10 1
      ∷ demand (bytes "AUTH_DEV_CODES") (bytes "must be true or false") (is_some dev_codes)
      ∷ a_duration (bytes "AUTH_CODE_TTL") (300 * second)
      ∷ a_duration (bytes "AUTH_CODE_COOLDOWN") (60 * second)
      ∷ a_duration (bytes "AUTH_SESSION_TTL") (1800 * second)
      ∷ an_integer (bytes "AUTH_MAX_CODE_ATTEMPTS") 5 1
      ∷ a_second (bytes "AUTH_CODE_TTL") (300 * second)
      ∷ a_second (bytes "AUTH_CODE_COOLDOWN") (60 * second)
      ∷ a_second (bytes "AUTH_SESSION_TTL") (1800 * second)
      ∷ demand (bytes "AUTH_DEV_CODES") (bytes "requires HTTP_ADDR bound to loopback") (
          not (is_true dev_codes)
          || is_local lib lookup (text_of lib lookup (bytes "HTTP_ADDR") (bytes "127.0.0.1:8080")))
      ∷ []

  pub settings-note_all : (settings lib lookup none).1 ≡ note_all demands none
  unfolding settings
  settings-note_all = refl

  pub settings-is_ok : is_ok (settings lib lookup none).0 ≡ true
  unfolding settings
  settings-is_ok = refl

abbrev pub AllMet : List Demand → Type 0
AllMet = All (λ d. d.is_met ≡ true)

pub first_unmet-none : (ds : List Demand) → first_unmet ds ≡ none → AllMet ds
first_unmet-none [] e = tt
first_unmet-none (d ∷ ds) e = elim (Bool-cases d.is_met) [
  | inl met ↦ (met, first_unmet-none ds (ground (arith, e, met)))
  | inr unmet ↦ absurd (ground (arith, e, unmet))
]

pub above-value_or :
    (low : ℤ) (v : Option ℤ) → above low v ≡ true → ltb_ℤ low (value_or (pos 0) v) ≡ true
above-value_or low none h = cc
above-value_or low (some v) h = h

pub at_least-value_or :
    (low : ℤ) (v : Option ℤ) → at_least low v ≡ true → not (ltb_ℤ (value_or (pos 0) v) low) ≡ true
at_least-value_or low none h = cc
at_least-value_or low (some v) h = h
