-- ===== src/Examples/Accounts.antt =====
-- First logins on a small table of users.
use local_life_go.Prelude.{
  refl, count, ◌⊎◌, ◌≢◌, none, ◌++◌, find, [], ◌≡◌, some, Option, true, same_text, if◌then◌else◌,
  bytes, arith, Text, ℕ,
}
use local_life_go.Effects.{ok, done}
use local_life_go.Auth.{
  login, public_user, User, AuthOptions, LoginResult, valid_token, authenticate,
}
use local_life_go.Auth.Accounts.{
  is_user_of, nickname_of, UserTable, new_user, find_or_create, insert_user,
}
use local_life_go.Auth.Store.{issue_code, consume_code, save_session}
use local_life_go.Auth.Accounts.Laws.{Surroundings, call, IsTable, one_account, unchanged, inserted}
use local_life_go.Auth.World.{World, Environment, users, store, run_login}
use local_life_go.Auth.Sessions.{at_once, code_issued, logged_in, login_ok}

abbrev phone : Text
phone = bytes "13800000000"

abbrev other_phone : Text
other_phone = bytes "13900000000"

abbrev no_users : UserTable
no_users = record { users = []; next_id = 1 }

no_users-IsTable : IsTable no_users
no_users-IsTable = record { phones = λ _. omega arith; numbers = λ _. omega arith; below = tt }

-- Another first login comes between the statements.
abbrev busy : Text → Surroundings
busy random = record {
  inserting = done;
  selecting = done;
  others = insert_user other_phone (bytes "b");
  history = λ _. inserted other_phone (bytes "b") unchanged;
  random = random;
}

abbrev first_user : User
first_user = new_user 1 phone (nickname_of (bytes "ABCDEFGHIJ"))

one_account_example :
    (first_user ≡ first_user)
    × (first_user.phone ≡ phone)
    × ((find (is_user_of phone) no_users.users ≡ none)
        ⊎ (find (is_user_of phone) no_users.users ≡ some first_user))
    × (count (is_user_of phone) (call (busy (bytes "ABCDEFGHIJ")) phone no_users).1.users ≡ 1)
unfolding find_or_create insert_user same_text
one_account_example =
    one_account (busy (bytes "ABCDEFGHIJ")) (busy (bytes "ZYXWVUTSRQ")) phone no_users
      (call (busy (bytes "ABCDEFGHIJ")) phone no_users).1 first_user first_user no_users-IsTable
      refl unchanged refl

-- The digest and the decoding of the tests.
abbrev digest : Text → Text
digest t = t

abbrev decode : Text → Option Text
decode _ = some (bytes "0123456789abcdef0123456789abcdef")

abbrev token : Text
token = bytes "0123456789abcdef0123456789abcdef0123456789a"

abbrev options : AuthOptions
options = record {
  dev_codes = true;
  code_ttl = 300000000000;
  code_cooldown = 60000000000;
  max_code_attempts = 5;
  session_ttl = 1800000000000;
}

abbrev issued : World
issued = record {
  table = no_users;
  logins = record {
    codes = λ key.
        if same_text key phone
        then some (record { digest = phone ++ bytes ":123456"; attempts = 5 }, 1000)
        else none;
    cooldowns = λ _. none;
    sessions = λ _. none;
  };
}

abbrev environment : ℕ → Environment
environment now = record {
  reply = done;
  saving = done;
  now = now;
  account = busy (bytes "ABCDEFGHIJ");
}

abbrev result : LoginResult
result = record {
  token = token;
  token_type = bytes "Bearer";
  expires_in = 1800;
  user = record { id = 1; nickname = nickname_of (bytes "ABCDEFGHIJ"); avatar = [] };
}

abbrev first_login : World
first_login = (run_login digest (environment 10) options (ok token) phone (bytes "123456") issued).1

-- Another phone is sent a code, and a login for the phone is tried again.
abbrev coded : World
coded = record first_login {
  logins =
      (issue_code digest done 12 other_phone (bytes "654321") 300000000000 60000000000 5
        first_login.logins).1;
}

abbrev afterwards : World
afterwards = (run_login digest (environment 15) options (ok token) phone (bytes "123456") coded).1

login_ok_example :
    ((u : User) × (find (is_user_of phone) first_login.table.users ≡ some u)
      × (result.user ≡ public_user u))
    × ((authenticate
          (users (environment 20))
          (store digest (environment 20))
          options
          decode
          token
          afterwards).0
        ≡ ok 1)
    × ((run_login digest (environment 20) options (ok token) phone (bytes "123456") afterwards).0
        ≢ ok result)
unfolding login users store find_or_create insert_user same_text consume_code save_session
    valid_token public_user
login_ok_example =
    login_ok digest options decode (environment 10) (environment 20) (ok token) (ok token) phone
      (bytes "123456") (bytes "123456") issued afterwards result result refl refl (omega arith)
      (logged_in (environment 15) options (ok token) phone (bytes "123456")
        (code_issued done 12 other_phone (bytes "654321") 300000000000 60000000000 5 at_once refl)
        (omega arith))
      refl (omega arith)
