-- ===== src/Config/Laws.antt =====
-- What LoadFrom of internal/config/config.go accepts, and which error it names.
use local_life_go.Prelude.{
  ◌↔◌, subst, sym, ◌∙◌, ◌||◌, inr, inl, true, pos, ltb_ℤ, refl, not, ◌*◌, ℤ, ◌≡◌, bytes, some, none,
  Option, Text, ℕ,
}
use local_life_go.Config.{
  outcome, load_from, is_local, integer_of, duration_of, second, value_or, is_addr, Config,
  is_filled, settings, Invalid, Library,
}
use local_life_go.Effects.{err, ok, is_ok, Result}
use local_life_go.Config.Demands.{
  AllMet, a_duration, above-value_or, an_integer, at_least-value_or, demands, first_unmet,
  first_unmet-none, note_all-none, number, settings-is_ok, settings-note_all,
}

module _ (lib : Library) where
  abbrev IsPositive : ℤ → Type 0
  IsPositive d = ltb_ℤ (pos 0) d ≡ true

  -- `low` at least.
  abbrev IsFrom : ℕ → ℤ → Type 0
  IsFrom low n = not (ltb_ℤ n (pos low)) ≡ true

  abbrev IsAddr : Text → Type 0
  IsAddr address = is_addr lib (λ _. none) address ≡ true

  abbrev IsFilled : Text → Type 0
  IsFilled value = is_filled lib (λ _. none) value ≡ true

  -- What the program may rely on once the settings are loaded.
  pub record IsValid (cfg : Config) : Type 0 where
    pub upload_dir : IsFilled cfg.upload_dir
    pub http_addr : IsAddr cfg.http.addr
    pub request_timeout : IsPositive cfg.http.request_timeout
    pub startup_timeout : IsPositive cfg.startup_timeout
    pub shutdown_timeout : IsPositive cfg.shutdown_timeout
    pub dependency_timeout : IsPositive cfg.dependency_timeout
    pub mysql_addr : IsAddr cfg.mysql.addr
    pub user : IsFilled cfg.mysql.user
    pub database : IsFilled cfg.mysql.database
    pub open_conns : IsFrom 1 cfg.mysql.max_open_conns
    pub idle_conns : IsFrom 0 cfg.mysql.max_idle_conns
    pub idle_in_open : not (ltb_ℤ cfg.mysql.max_open_conns cfg.mysql.max_idle_conns) ≡ true
    pub lifetime : IsPositive cfg.mysql.conn_max_lifetime
    pub redis_addr : IsAddr cfg.redis.addr
    pub redis_db : IsFrom 0 cfg.redis.db
    pub pool_size : IsFrom 1 cfg.redis.pool_size
    pub code_ttl : IsFrom second cfg.auth.code_ttl
    pub code_cooldown : IsFrom second cfg.auth.code_cooldown
    pub session_ttl : IsFrom second cfg.auth.session_ttl
    pub attempts : IsFrom 1 cfg.auth.max_code_attempts
    pub local : (not cfg.auth.dev_codes || is_local lib (λ _. none) cfg.http.addr) ≡ true

  abbrev IsValidResult : Result Config → Type 0
  IsValidResult (ok cfg) = IsValid cfg
  IsValidResult (err _) = ⊥

  positive :
      (lookup : Text → Option Text) (key : Text) (fallback : ℕ)
      → (a_duration lib lookup key fallback).is_met ≡ true
      → IsPositive (value_or (pos 0) (duration_of lib lookup key fallback))
  positive lookup key fallback = above-value_or (pos 0) (duration_of lib lookup key fallback)

  number-IsFrom :
      (lookup : Text → Option Text) (key : Text) (fallback low : ℕ)
      → (an_integer lib lookup key fallback low).is_met ≡ true
      → IsFrom low (number lib lookup key fallback)
  number-IsFrom lookup key fallback low =
      at_least-value_or (pos low) (integer_of lib lookup key fallback)

  met-IsValidResult :
      (lookup : Text → Option Text)
      → AllMet (demands lib lookup)
      → IsValidResult (settings lib lookup none).0
  unfolding settings
  met-IsValidResult lookup
        (
          dir,
          (
            http,
            (
              request,
              (
                startup,
                (
                  shutdown,
                  (
                    dependency,
                    (
                      mysql,
                      (
                        user,
                        (
                          database,
                          (
                            open_met,
                            (
                              idle,
                              (
                                lifetime,
                                (
                                  within,
                                  (
                                    redis,
                                    (
                                      db,
                                      (
                                        pool,
                                        (
                                          _,
                                          (
                                            _,
                                            (
                                              _,
                                              (
                                                _,
                                                (
                                                  attempts,
                                                  (ttl_1s, (cooldown_1s, (session_1s, (near, _)))),
                                                ),
                                              ),
                                            ),
                                          ),
                                        ),
                                      ),
                                    ),
                                  ),
                                ),
                              ),
                            ),
                          ),
                        ),
                      ),
                    ),
                  ),
                ),
              ),
            ),
          ),
        ) =
      record {
        upload_dir = dir;
        http_addr = http;
        request_timeout = positive lookup (bytes "HTTP_REQUEST_TIMEOUT") (3 * second) request;
        startup_timeout = positive lookup (bytes "STARTUP_TIMEOUT") (10 * second) startup;
        shutdown_timeout = positive lookup (bytes "SHUTDOWN_TIMEOUT") (10 * second) shutdown;
        dependency_timeout = positive lookup (bytes "DEPENDENCY_TIMEOUT") (2 * second) dependency;
        mysql_addr = mysql;
        user = user;
        database = database;
        open_conns = number-IsFrom lookup (bytes "MYSQL_MAX_OPEN_CONNS") 20 1 open_met;
        idle_conns = number-IsFrom lookup (bytes "MYSQL_MAX_IDLE_CONNS") 10 0 idle;
        idle_in_open = within;
        lifetime = positive lookup (bytes "MYSQL_CONN_MAX_LIFETIME") (180 * second) lifetime;
        redis_addr = redis;
        redis_db = number-IsFrom lookup (bytes "REDIS_DB") 0 0 db;
        pool_size = number-IsFrom lookup (bytes "REDIS_POOL_SIZE") 10 1 pool;
        code_ttl = ttl_1s;
        code_cooldown = cooldown_1s;
        session_ttl = session_1s;
        attempts = number-IsFrom lookup (bytes "AUTH_MAX_CODE_ATTEMPTS") 5 1 attempts;
        local = near;
      }

  outcome-IsValid :
      (lookup : Text → Option Text) (r : Result Config) (first : Option Invalid) (cfg : Config)
      → outcome lib lookup (r, first) ≡ inl cfg
      → (first ≡ none → IsValidResult r)
      → IsValid cfg
  outcome-IsValid lookup (ok c) none cfg e valid = subst IsValid (cc) (valid refl)
  outcome-IsValid lookup (err f) none cfg e valid = absurd (valid refl)
  outcome-IsValid lookup r (some bad) cfg e valid = cc

  settings-first_unmet :
      (lookup : Text → Option Text)
      → (settings lib lookup none).1 ≡ first_unmet (demands lib lookup)
  settings-first_unmet lookup = settings-note_all lib lookup ∙ note_all-none (demands lib lookup)

  -- What LoadFrom loads is valid: every duration is positive, the three of the login at least a
  -- second; the addresses have a port in range; the required texts are not blank; the numbers are not
  -- below their least value, and no more connections may be idle than open; and codes are shown only
  -- where the server listens on a loopback address.
  pub load_from-IsValid :
      (lookup : Text → Option Text) (cfg : Config) → load_from lib lookup ≡ inl cfg → IsValid cfg
  unfolding load_from
  load_from-IsValid lookup cfg e =
      outcome-IsValid lookup (settings lib lookup none).0 (settings lib lookup none).1 cfg e
        (λ clean.
          met-IsValidResult lookup
            (first_unmet-none (demands lib lookup) (sym (settings-first_unmet lookup) ∙ clean)))

  outcome-error :
      (lookup : Text → Option Text) (r : Result Config) (first : Option Invalid) (e : Invalid)
      → is_ok r ≡ true
      → (outcome lib lookup (r, first) ≡ inr e) ↔ (first ≡ some e)
  outcome-error lookup (ok c) none e h = (λ q. cc, λ q. cc)
  outcome-error lookup (ok c) (some bad) e h = (λ q. cc, λ q. cc)
  outcome-error lookup (err f) first e h = absurd (cc)

  -- LoadFrom fails exactly if some demand on the environment is not met, and names the first of them
  -- in the order of the code.
  pub load_from-first_unmet :
      (lookup : Text → Option Text) (e : Invalid)
      → (load_from lib lookup ≡ inr e) ↔ (first_unmet (demands lib lookup) ≡ some e)
  unfolding load_from
  load_from-first_unmet lookup e =
      let (to, back) =
        outcome-error lookup (settings lib lookup none).0 (settings lib lookup none).1 e
          (settings-is_ok lib lookup) in
      let same = settings-first_unmet lookup in (λ h. sym same ∙ to h, λ h. back (same ∙ h))
