-- ===== src/Auth.antt =====
-- Login by a code (internal/service/auth.go) over the stores that it is given. Durations are
-- nanoseconds.
pub mod Store
pub mod Accounts
pub mod World
pub mod Held
pub mod Sessions
use local_life_go.Prelude.{
  ◌%◌, ◌/◌, ℕ, suc, ◌+◌, ◌-◌, ◌*◌, ◌≤◌, ◌<◌, ◌≡◌, ◌≢◌, refl, sym, ap, subst, ◌∙◌, ◌⊎◌, inl, inr,
  Bool, true, false, not, ◌&&◌, ◌||◌, Option, none, some, List, [], ◌∷◌, ◌++◌, map, arith,
  if◌then◌else◌, ltb, leb, ◌==◌, Bool-cases, Option-cases, is_some, length, take, drop, select,
  count, find, any, all, All, sort_by, Text, bytes, same_text, same_text_refl, same_text_sound,
  digits, format_uint, is_digit,
}
use local_life_go.Effects.{
  Result, ok, err, M, pure, raise, fail_if, attempt, from_result, map_error, map_result, ◌>>=◌,
  ◌>>◌, Reply, done, failed, unacknowledged, answer, written, query, send, first_row, is_ok,
  is_unacknowledged, Result-cases, Reply-cases, check_context, wrap_error,
}
use local_life_go.AppError.{Kind, Fault, classified, describe, kind_text}

-- internal/model/user.go
pub record User : Type 0 where
  pub id : ℕ
  pub phone : Text
  pub nickname : Text
  pub avatar : Text

pub record Users (S : Type 0) : Type 0 where
  pub find_or_create : Text → M S User
  pub by_id : ℕ → M S User

pub record AuthStore (S : Type 0) : Type 0 where
  pub issue_code : Text → Text → ℕ → ℕ → ℕ → M S Bool
  pub consume_code : Text → Text → M S Bool
  pub save_session : Text → ℕ → ℕ → M S (Unit {0})
  pub session_user : Text → M S (Option ℕ)
  pub delete_session : Text → M S (Unit {0})

-- The options of internal/config that the service reads.
pub record AuthOptions : Type 0 where
  pub dev_codes : Bool
  pub code_ttl : ℕ
  pub code_cooldown : ℕ
  pub max_code_attempts : ℕ
  pub session_ttl : ℕ

pub record PublicUser : Type 0 where
  pub id : ℕ
  pub nickname : Text
  pub avatar : Text

pub record CodeResult : Type 0 where
  pub expires_in : ℕ
  pub dev_code : Text

pub record LoginResult : Type 0 where
  pub token : Text
  pub token_type : Text
  pub expires_in : ℕ
  pub user : PublicUser

unfoldable pub public_user : User → PublicUser
public_user user = record { id = user.id; nickname = user.nickname; avatar = user.avatar }

-- `^1[3-9][0-9]{9}$`
pub is_phone : Text → Bool
is_phone [] = false
is_phone (_ ∷ []) = false
is_phone (first ∷ second ∷ rest) =
    (first == b'1') && leb b'3' second && leb second b'9' && (length rest == 9) && all is_digit rest

-- `^[0-9]{6}$`
unfoldable pub is_code : Text → Bool
is_code code = (length code == 6) && all is_digit code

-- `%06d` of a number below 1000000.
unfoldable pub six_digits : ℕ → Text
six_digits n =
    (b'0' + n / 100000 % 10)
    ∷ (b'0' + n / 10000 % 10)
    ∷ (b'0' + n / 1000 % 10)
    ∷ (b'0' + n / 100 % 10)
    ∷ (b'0' + n / 10 % 10)
    ∷ (b'0' + n % 10)
    ∷ []

module _ {S : Type 0} (users : Users S) (store : AuthStore S) (options : AuthOptions) where
  -- `random` is what crypto/rand gives: a number below 1000000, or an error.
  unfoldable pub request_code : Result ℕ → Text → M S CodeResult
  unfolding is_phone six_digits
  request_code random phone = do
    fail_if (not (is_phone phone)) (Fault.new Kind.validation)
    fail_if (not options.dev_codes) (Fault.new Kind.dependency)
    n ← from_result (wrap_error (Fault.wrap Kind.internal) random)
    issued ← map_error (Fault.wrap Kind.dependency) (
        store.issue_code phone (six_digits n) options.code_ttl options.code_cooldown
          options.max_code_attempts)
    fail_if (not issued) (Fault.new Kind.rate_limited)
    pure (record { expires_in = options.code_ttl / 1000000000; dev_code = six_digits n })

  -- `random` is a new token: 32 random bytes in base64, or an error of crypto/rand.
  unfoldable pub login : Result Text → Text → Text → M S LoginResult
  unfolding is_phone is_code public_user
  login random phone code = do
    fail_if (not (is_phone phone) || not (is_code code)) (Fault.new Kind.validation)
    consumed ← map_error (Fault.wrap Kind.dependency) (store.consume_code phone code)
    fail_if (not consumed) (Fault.new Kind.unauthorized)
    user ← map_error (Fault.wrap Kind.dependency) (users.find_or_create phone)
    token ← from_result (wrap_error (Fault.wrap Kind.internal) random)
    map_error (Fault.wrap Kind.dependency) (store.save_session token user.id options.session_ttl)
    pure (record {
      token = token;
      token_type = bytes "Bearer";
      expires_in = options.session_ttl / 1000000000;
      user = public_user user;
    })

  -- `decode` is the strict unpadded base64 of the standard library.
  module _ (decode : Text → Option Text) where
    abbrev pub is_32_bytes : Option Text → Bool
    is_32_bytes none = false
    is_32_bytes (some raw) = length raw == 32

    unfoldable pub valid_token : Text → Bool
    valid_token token = (length token == 43) && is_32_bytes (decode token)

    found_user : Option ℕ → Result ℕ
    found_user none = err (Fault.new Kind.unauthorized)
    found_user (some id) = ok id

    unfoldable pub authenticate : Text → M S ℕ
    unfolding valid_token found_user
    authenticate token = do
      fail_if (not (valid_token token)) (Fault.new Kind.unauthorized)
      found ← map_error (Fault.wrap Kind.dependency) (store.session_user token)
      from_result (found_user found)

    unfoldable pub logout : Text → M S (Unit {0})
    unfolding valid_token
    logout token = do
      fail_if (not (valid_token token)) (Fault.new Kind.unauthorized)
      map_error (Fault.wrap Kind.dependency) (store.delete_session token)

  unfoldable pub me : ℕ → M S PublicUser
  unfolding public_user
  me id = do user ← users.by_id id; pure (public_user user)
