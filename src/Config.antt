-- ===== src/Config.antt =====
-- The settings from the environment (internal/config/config.go). Each reader of a setting returns a
-- value and notes an error; only the first error counts, and after one no value is used.
pub mod Demands
pub mod Laws
use local_life_go.Prelude.{
  inl, ◌∷◌, inr, format_uint, any, ◌++◌, none, pos, ◌*◌, true, ◌&&◌, ◌||◌, ltb_ℤ, same_text, false,
  some, is_some, parse_int, if◌then◌else◌, ◌⊎◌, [], not, bytes, Bool, Option, Text, ℤ, ℕ, zero, suc,
  ◌+◌,
}
use local_life_go.Effects.{err, ◌>>◌, ◌>>=◌, Result, ok, M, pure}

-- The key and the reason of the error, as LoadFrom prints them.
pub record Invalid : Type 0 where
  pub key : Text
  pub reason : Text

pub record Http : Type 0 where
  pub addr : Text
  pub request_timeout : ℤ

pub record MySql : Type 0 where
  pub addr : Text
  pub user : Text
  pub password : Text
  pub database : Text
  pub max_open_conns : ℤ
  pub max_idle_conns : ℤ
  pub conn_max_lifetime : ℤ

pub record RedisConfig : Type 0 where
  pub addr : Text
  pub password : Text
  pub db : ℤ
  pub pool_size : ℤ

pub record AuthConfig : Type 0 where
  pub dev_codes : Bool
  pub code_ttl : ℤ
  pub code_cooldown : ℤ
  pub session_ttl : ℤ
  pub max_code_attempts : ℤ

-- A duration is a number of nanoseconds.
pub record Config : Type 0 where
  pub upload_dir : Text
  pub http : Http
  pub mysql : MySql
  pub redis : RedisConfig
  pub auth : AuthConfig
  pub startup_timeout : ℤ
  pub shutdown_timeout : ℤ
  pub dependency_timeout : ℤ

-- time.ParseDuration and Duration.String, net.SplitHostPort, whether net.ParseIP gives a loopback
-- address, and strings.TrimSpace.
pub record Library : Type 0 where
  pub parse_duration : Text → Option ℤ
  pub print_duration : ℕ → Text
  pub split_host_port : Text → Option (Text × Text)
  pub is_loopback_ip : Text → Bool
  pub trim_space : Text → Text

abbrev pub second : ℕ
second = 1000000000

-- `if firstErr == nil { firstErr = … }`
abbrev pub noted : Bool → Text → Text → Option Invalid → Option Invalid
noted true key reason first = first
noted false key reason (some e) = some e
noted false key reason none = some (record { key = key; reason = reason })

-- Note an error unless the test holds.
abbrev pub require : Bool → Text → Text → M (Option Invalid) (Unit {0})
require test key reason first = (ok tt, noted test key reason first)

abbrev pub value_or : ℤ → Option ℤ → ℤ
value_or z none = z
value_or z (some v) = v

abbrev pub at_least : ℤ → Option ℤ → Bool
at_least low none = false
at_least low (some v) = not (ltb_ℤ v low)

abbrev pub above : ℤ → Option ℤ → Bool
above low none = false
above low (some v) = ltb_ℤ low v

abbrev pub host_of : Option (Text × Text) → Text
host_of none = []
host_of (some (host, _)) = host

abbrev pub port_of : Option (Text × Text) → Text
port_of none = []
port_of (some (_, port)) = port

abbrev pub is_port : Option ℤ → Bool
is_port none = false
is_port (some n) = not (ltb_ℤ n (pos 1)) && not (ltb_ℤ (pos 65535) n)

-- strconv.ParseBool
unfoldable pub parse_bool : Text → Option Bool
parse_bool s =
    if any (same_text s)
      (bytes "1" ∷ bytes "t" ∷ bytes "T" ∷ bytes "TRUE" ∷ bytes "true" ∷ bytes "True" ∷ [])
    then some true
    else if any (same_text s)
        (bytes "0" ∷ bytes "f" ∷ bytes "F" ∷ bytes "FALSE" ∷ bytes "false" ∷ bytes "False" ∷ [])
    then some false
    else none

abbrev pub is_true : Option Bool → Bool
is_true none = false
is_true (some b) = b

abbrev pub positive_reason : Text
positive_reason = bytes "must be a positive duration (for example 3s)"

abbrev pub at_least_reason : ℕ → Text
at_least_reason low = bytes "must be an integer >= " ++ format_uint low

abbrev pub addr_reason : Text
addr_reason = bytes "must be host:port with port between 1 and 65535"

abbrev pub required_reason : Text
required_reason = bytes "must not be empty"

module _ (lib : Library) (lookup : Text → Option Text) where
  -- str
  abbrev pub text_of : Text → Text → Text
  text_of key fallback = elim (lookup key) [ some value ↦ value | none ↦ fallback ]

  abbrev pub duration_of : Text → ℕ → Option ℤ
  duration_of key fallback = lib.parse_duration (text_of key (lib.print_duration fallback))

  abbrev pub duration : Text → ℕ → M (Option Invalid) ℤ
  duration key fallback = do
    require (above (pos 0) (duration_of key fallback)) key positive_reason
    pure (value_or (pos 0) (duration_of key fallback))

  -- strconv.Atoi
  abbrev pub integer_of : Text → ℕ → Option ℤ
  integer_of key fallback = parse_int (text_of key (format_uint fallback))

  abbrev pub integer : Text → ℕ → ℕ → M (Option Invalid) ℤ
  integer key fallback low = do
    require (at_least (pos low) (integer_of key fallback)) key (at_least_reason low)
    pure (value_or (pos 0) (integer_of key fallback))

  abbrev pub is_addr : Text → Bool
  is_addr value =
      is_some (lib.split_host_port value)
      && is_port (parse_int (port_of (lib.split_host_port value)))

  abbrev pub addr : Text → Text → M (Option Invalid) Text
  addr key fallback = do
    require (is_addr (text_of key fallback)) key addr_reason
    pure (text_of key fallback)

  abbrev pub is_filled : Text → Bool
  is_filled value = not (same_text (lib.trim_space value) [])

  abbrev pub required : Text → Text → M (Option Invalid) Text
  required key fallback = do
    require (is_filled (text_of key fallback)) key required_reason
    pure (text_of key fallback)

  abbrev pub is_local : Text → Bool
  is_local address =
      same_text (host_of (lib.split_host_port address)) (bytes "localhost")
      || lib.is_loopback_ip (host_of (lib.split_host_port address))

  abbrev at_least_second : Text → ℤ → M (Option Invalid) (Unit {0})
  at_least_second key value =
      require (not (ltb_ℤ value (pos second))) key (bytes "must be at least 1s")

  -- The body of LoadFrom; the calls stand in the order in which Go makes them.
  unfoldable pub settings : M (Option Invalid) Config
  unfolding parse_bool
  settings = do
    upload_dir ← required (bytes "UPLOAD_DIR") (bytes "uploads")
    http_addr ← addr (bytes "HTTP_ADDR") (bytes "127.0.0.1:8080")
    request_timeout ← duration (bytes "HTTP_REQUEST_TIMEOUT") (3 * second)
    startup_timeout ← duration (bytes "STARTUP_TIMEOUT") (10 * second)
    shutdown_timeout ← duration (bytes "SHUTDOWN_TIMEOUT") (10 * second)
    dependency_timeout ← duration (bytes "DEPENDENCY_TIMEOUT") (2 * second)
    mysql_addr ← addr (bytes "MYSQL_ADDR") (bytes "127.0.0.1:3306")
    user ← required (bytes "MYSQL_USER") (bytes "locallife")
    let mysql_password = text_of (bytes "MYSQL_PASSWORD") (bytes "locallife_dev")
    database ← required (bytes "MYSQL_DATABASE") (bytes "locallife")
    max_open_conns ← integer (bytes "MYSQL_MAX_OPEN_CONNS") 20 1
    max_idle_conns ← integer (bytes "MYSQL_MAX_IDLE_CONNS") 10 0
    conn_max_lifetime ← duration (bytes "MYSQL_CONN_MAX_LIFETIME") (180 * second)
    require (not (ltb_ℤ max_open_conns max_idle_conns)) (bytes "MYSQL_MAX_IDLE_CONNS")
        (bytes "must not exceed MYSQL_MAX_OPEN_CONNS")
    redis_addr ← addr (bytes "REDIS_ADDR") (bytes "127.0.0.1:6379")
    let redis_password = text_of (bytes "REDIS_PASSWORD") []
    db ← integer (bytes "REDIS_DB") 0 0
    pool_size ← integer (bytes "REDIS_POOL_SIZE") 10 1
    let dev_codes = parse_bool (text_of (bytes "AUTH_DEV_CODES") (bytes "false"))
    require (is_some dev_codes) (bytes "AUTH_DEV_CODES") (bytes "must be true or false")
    code_ttl ← duration (bytes "AUTH_CODE_TTL") (300 * second)
    code_cooldown ← duration (bytes "AUTH_CODE_COOLDOWN") (60 * second)
    session_ttl ← duration (bytes "AUTH_SESSION_TTL") (1800 * second)
    max_code_attempts ← integer (bytes "AUTH_MAX_CODE_ATTEMPTS") 5 1
    at_least_second (bytes "AUTH_CODE_TTL") code_ttl
    at_least_second (bytes "AUTH_CODE_COOLDOWN") code_cooldown
    at_least_second (bytes "AUTH_SESSION_TTL") session_ttl
    require (not (is_true dev_codes) || is_local http_addr) (bytes "AUTH_DEV_CODES")
        (bytes "requires HTTP_ADDR bound to loopback")
    pure (record {
      upload_dir = upload_dir;
      http = record { addr = http_addr; request_timeout = request_timeout };
      mysql = record {
        addr = mysql_addr;
        user = user;
        password = mysql_password;
        database = database;
        max_open_conns = max_open_conns;
        max_idle_conns = max_idle_conns;
        conn_max_lifetime = conn_max_lifetime;
      };
      redis = record {
        addr = redis_addr;
        password = redis_password;
        db = db;
        pool_size = pool_size;
      };
      auth = record {
        dev_codes = is_true dev_codes;
        code_ttl = code_ttl;
        code_cooldown = code_cooldown;
        session_ttl = session_ttl;
        max_code_attempts = max_code_attempts;
      };
      startup_timeout = startup_timeout;
      shutdown_timeout = shutdown_timeout;
      dependency_timeout = dependency_timeout;
    })

  -- `return Config{}, firstErr`, or the settings.
  abbrev pub outcome : Result Config × Option Invalid → Config ⊎ Invalid
  outcome (_, some e) = inr e
  outcome (ok cfg, none) = inl cfg
  outcome (err _, none) = inr (record { key = []; reason = [] })

  unfoldable pub load_from : Config ⊎ Invalid
  unfolding settings
  load_from = outcome (settings none)
