-- ===== src/Examples/Settings.antt =====
-- The settings of internal/config/config.go under a small library.
use local_life_go.Prelude.{
  refl, some, true, ◌==◌, none, if◌then◌else◌, same_text, [], ◌↔◌, digits, Option, pos, ◌∷◌,
  format_uint, inr, ◌≡◌, parse_int, bytes, Text,
}
use mathlib.Core.Option
use local_life_go.Config.{load_from, settings, parse_bool, Library, Config, Invalid}
use local_life_go.Config.Demands.{first_unmet}
use local_life_go.Config.Laws.{load_from-IsValid, load_from-first_unmet, IsValid}
use local_life_go.Config.Demands.{demands}

abbrev before_colon : Text → Text
before_colon [] = []
before_colon (c ∷ cs) = if c == b':' then [] else c ∷ before_colon cs

abbrev after_colon : Text → Option Text
after_colon [] = none
after_colon (c ∷ cs) = if c == b':' then some cs else after_colon cs

-- Durations are plain numbers here, and an address has one colon.
abbrev plain : Library
plain = record {
  parse_duration = λ s. parse_int s;
  print_duration = λ n. format_uint n;
  split_host_port = λ s. Option.map (λ port. (before_colon s, port)) (after_colon s);
  is_loopback_ip = same_text (bytes "127.0.0.1");
  trim_space = λ s. s;
}

abbrev with_dev_codes : Text → Option Text
with_dev_codes key = if same_text key (bytes "AUTH_DEV_CODES") then some (bytes "true") else none

-- Shown codes on an address that is not local.
abbrev exposed : Text → Option Text
exposed key =
    if same_text key (bytes "HTTP_ADDR") then some (bytes "0.0.0.0:8080") else with_dev_codes key

abbrev defaults : Config
defaults = record {
  upload_dir = bytes "uploads";
  http = record { addr = bytes "127.0.0.1:8080"; request_timeout = pos 3000000000 };
  mysql = record {
    addr = bytes "127.0.0.1:3306";
    user = bytes "locallife";
    password = bytes "locallife_dev";
    database = bytes "locallife";
    max_open_conns = pos 20;
    max_idle_conns = pos 10;
    conn_max_lifetime = pos 180000000000;
  };
  redis = record { addr = bytes "127.0.0.1:6379"; password = []; db = pos 0; pool_size = pos 10 };
  auth = record {
    dev_codes = true;
    code_ttl = pos 300000000000;
    code_cooldown = pos 60000000000;
    session_ttl = pos 1800000000000;
    max_code_attempts = pos 5;
  };
  startup_timeout = pos 10000000000;
  shutdown_timeout = pos 10000000000;
  dependency_timeout = pos 2000000000;
}

load_from-IsValid_example : IsValid plain defaults
unfolding load_from settings parse_bool parse_int format_uint digits same_text
load_from-IsValid_example = load_from-IsValid plain with_dev_codes defaults refl

abbrev not_local : Invalid
not_local = record {
  key = bytes "AUTH_DEV_CODES";
  reason = bytes "requires HTTP_ADDR bound to loopback";
}

load_from-first_unmet_example :
    (load_from plain exposed ≡ inr not_local)
    ↔ (first_unmet (demands plain exposed) ≡ some not_local)
load_from-first_unmet_example = load_from-first_unmet plain exposed not_local

load_from-exposed : load_from plain exposed ≡ inr not_local
unfolding load_from settings parse_bool parse_int format_uint digits same_text
load_from-exposed = refl
