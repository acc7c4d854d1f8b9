-- ===== src/Auth/Accounts.antt =====
-- The table of users (internal/repository/user.go). Its unique index on the phone decides between
-- first logins that run at once.
pub mod Laws
use local_life_go.Prelude.{
  find, ◌++◌, any, take, if◌then◌else◌, same_text, ◌==◌, ◌∷◌, [], Text, Bool, List, ℕ, zero, suc,
  ◌+◌,
}
use local_life_go.Auth.{User}
use local_life_go.Effects.{first_row, send, query, ◌>>◌, map_error, ok, M, Reply}
use local_life_go.AppError.{Kind, is_record_not_found, Fault}

-- `next_id` is the AUTO_INCREMENT of the table.
pub record UserTable : Type 0 where
  pub users : List User
  pub next_id : ℕ

abbrev pub is_user_of : Text → User → Bool
is_user_of phone user = same_text user.phone phone

abbrev pub has_id : ℕ → User → Bool
has_id id user = user.id == id

abbrev pub new_user : ℕ → Text → Text → User
new_user id phone nickname = record { id = id; phone = phone; nickname = nickname; avatar = [] }

-- INSERT … that does nothing where the phone is there; the number is used up all the same. The rows
-- stand in the order of their keys.
unfoldable pub insert_user : Text → Text → UserTable → UserTable
insert_user phone nickname table = record {
  users =
      if any (is_user_of phone) table.users
      then table.users
      else table.users ++ new_user table.next_id phone nickname ∷ [];
  next_id = table.next_id + 1;
}

-- "用户_" in UTF-8, and then the first eight characters of a random text.
abbrev pub nickname_of : Text → Text
nickname_of random = 231 ∷ 148 ∷ 168 ∷ 230 ∷ 136 ∷ 183 ∷ b'_' ∷ take 8 random

-- What other clients do to the table between two statements.
abbrev pub meanwhile : (UserTable → UserTable) → M UserTable (Unit {0})
meanwhile others table = (ok tt, others table)

-- `random` is rand.Text() of the standard library.
unfoldable pub find_or_create :
    Reply → (UserTable → UserTable) → Reply → Text → Text → M UserTable User
unfolding insert_user
find_or_create inserted others selected random phone = do
  send inserted (λ table. (ok tt, insert_user phone (nickname_of random) table))
  meanwhile others
  query selected (λ table. first_row (find (is_user_of phone) table.users))

by_id_error : Fault → Fault
by_id_error e =
    if is_record_not_found e then Fault.new Kind.unauthorized else Fault.wrap Kind.dependency e

unfoldable pub user_by_id : Reply → ℕ → M UserTable User
unfolding by_id_error
user_by_id selected id =
    map_error by_id_error (query selected (λ table. first_row (find (has_id id) table.users)))
