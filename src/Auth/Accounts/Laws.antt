-- ===== src/Auth/Accounts/Laws.antt =====
-- One account for each phone (internal/repository/user.go), whatever first logins run at once.
use local_life_go.Prelude.{
  ◌∙◌, sym, Option-cases, ◌⊎◌, none, Option, refl, ◌≤◌, same_text_sound, All, same_text, ◌<◌, count,
  same_text_refl, inr, arith, [], ◌∷◌, inl, false, Bool-cases, ◌++◌, true, some, ◌≡◌, any, List,
  find, Text, Bool, ℕ, ◌+◌,
}
use local_life_go.Auth.Accounts.{nickname_of, find_or_create}
use local_life_go.Auth.{User}
use local_life_go.Auth.Accounts.{has_id, new_user, is_user_of, UserTable, insert_user}
use local_life_go.Effects.{Reply-cases, ok, Result, Reply}

-- What any number of clients make of the table: each statement of FindOrCreate that writes.
pub data History (start : UserTable) : UserTable → Type 0 where
  unchanged : History start start
  inserted :
      {table : UserTable} (phone nickname : Text)
      → History start table
      → History start (insert_user phone nickname table)

pub History-trans : {a b c : UserTable} → History a b → History b c → History a c
History-trans h unchanged = h
History-trans h (inserted phone nickname r) = inserted phone nickname (History-trans h r)

find-append :
    (p : User → Bool) (xs ys : List User) (u : User)
    → find p xs ≡ some u
    → find p (xs ++ ys) ≡ some u
find-append p [] ys u e = cc
find-append p (x ∷ xs) ys u e = ground (arith, find-append p xs ys u)

-- Nobody takes a row away or writes over it.
insert_user-keeps :
    (p : User → Bool) (phone nickname : Text) (table : UserTable) (u : User)
    → find p table.users ≡ some u
    → find p (insert_user phone nickname table).users ≡ some u
unfolding insert_user
insert_user-keeps p phone nickname table u e =
    elim (Bool-cases (any (is_user_of phone) table.users)) [
      | inl there ↦ rw there e
      | inr free ↦
          rw free (find-append p table.users (new_user table.next_id phone nickname ∷ []) u e)
    ]

pub History-keeps :
    (p : User → Bool) {a b : UserTable} (u : User)
    → find p a.users ≡ some u
    → History a b
    → find p b.users ≡ some u
History-keeps p u e unchanged = e
History-keeps p u e (inserted {table} phone nickname r) =
    insert_user-keeps p phone nickname table u (History-keeps p u e r)

find_sound : (p : User → Bool) (xs : List User) (u : User) → find p xs ≡ some u → p u ≡ true
find_sound p [] u e = cc
find_sound p (x ∷ xs) u e = ground (arith, find_sound p xs u, Bool-cases (p x))

-- The user of a phone is known after the statement, and was the one before if there was one.
find-new :
    (phone nickname : Text) (id : ℕ) (xs : List User)
    → any (is_user_of phone) xs ≡ false
    → find (is_user_of phone) (xs ++ new_user id phone nickname ∷ [])
      ≡ some (new_user id phone nickname)
find-new phone nickname id [] e = ground (arith, same_text_refl phone)
find-new phone nickname id (x ∷ xs) e = ground (arith, e, find-new phone nickname id xs)

-- What the keys of the table promise: no two users with one phone, or with one number.
pub record IsTable (table : UserTable) : Type 0 where
  pub phones : (phone : Text) → count (is_user_of phone) table.users ≤ 1
  pub numbers : (id : ℕ) → count (has_id id) table.users ≤ 1
  pub below : All (λ user. user.id < table.next_id) table.users

count-append : (p : User → Bool) (xs ys : List User) → count p (xs ++ ys) ≡ count p xs + count p ys
count-append p [] ys = omega arith
count-append p (x ∷ xs) ys = omega (arith, count-append p xs ys)

count-any : (p : User → Bool) (xs : List User) → any p xs ≡ false → count p xs ≡ 0
count-any p [] e = refl
count-any p (x ∷ xs) e = ground (arith, e, count-any p xs)

count-numbers : (id : ℕ) (xs : List User) → All (λ user. user.id < id) xs → count (has_id id) xs ≡ 0
count-numbers id [] b = refl
count-numbers id (x ∷ xs) b = ground (arith, count-numbers id xs)

below-append :
    (id : ℕ) (u : User) (xs : List User)
    → u.id ≡ id
    → All (λ user. user.id < id) xs
    → All (λ user. user.id < id + 1) (xs ++ u ∷ [])
below-append id u [] e b = (omega arith, tt)
below-append id u (x ∷ xs) e b = (omega arith, below-append id u xs e b.1)

below-next :
    (id : ℕ) (xs : List User) → All (λ user. user.id < id) xs → All (λ user. user.id < id + 1) xs
below-next id [] b = tt
below-next id (x ∷ xs) b = (omega arith, below-next id xs b.1)

same_phone :
    (phone phone' : Text) (xs : List User)
    → any (is_user_of phone) xs ≡ false
    → same_text phone phone' ≡ true
    → count (is_user_of phone') xs ≡ 0
same_phone phone phone' xs e s =
    rw (← same_text_sound phone phone' s) (count-any (is_user_of phone) xs e)

insert_user-IsTable :
    (phone nickname : Text) (table : UserTable)
    → IsTable table
    → IsTable (insert_user phone nickname table)
unfolding insert_user
insert_user-IsTable phone nickname table t =
    elim (Bool-cases (any (is_user_of phone) table.users)) [
      | inl there ↦ record {
        phones = rw there t.phones;
        numbers = rw there t.numbers;
        below = rw there (below-next table.next_id table.users t.below);
      }
      | inr free ↦
          let added = new_user table.next_id phone nickname in
          record {
            phones = λ phone'.
                rw (free, count-append (is_user_of phone') table.users (added ∷ []))
                  (ground (arith, t.phones phone', same_phone phone phone' table.users free));
            numbers = λ id.
                rw (free, count-append (has_id id) table.users (added ∷ []))
                  (ground (arith, t.numbers id, count-numbers table.next_id table.users t.below));
            below = rw free (below-append table.next_id added table.users refl t.below);
          }
    ]

pub History-IsTable : {a b : UserTable} → IsTable a → History a b → IsTable b
History-IsTable t unchanged = t
History-IsTable t (inserted {table} phone nickname r) =
    insert_user-IsTable phone nickname table (History-IsTable t r)

count-find : (p : User → Bool) (xs : List User) (u : User) → find p xs ≡ some u → 0 < count p xs
count-find p [] u e = cc
count-find p (x ∷ xs) u e = ground (arith, e, count-find p xs u)

-- What surrounds a call of FindOrCreate: its replies, the work of other clients between its two
-- statements, and its random text.
pub record Surroundings : Type 0 where
  pub inserting : Reply
  pub selecting : Reply
  pub others : UserTable → UserTable
  pub history : (table : UserTable) → History table (others table)
  pub random : Text

abbrev pub call : Surroundings → Text → UserTable → Result User × UserTable
call around phone table =
    find_or_create around.inserting around.others around.selecting around.random phone table

pub call-History :
    (around : Surroundings) (phone : Text) (table : UserTable)
    → History table (call around phone table).1
unfolding find_or_create
call-History around phone table = elim (Reply-cases around.inserting) [
  | inl ran ↦
      rw ran
        (History-trans (inserted phone (nickname_of around.random) unchanged) (around.history _))
  | inr (inl (e, failure)) ↦ rw failure unchanged
  | inr (inr (e, lost)) ↦ rw lost (inserted phone (nickname_of around.random) unchanged)
]

pub call_ok :
    (around : Surroundings) (phone : Text) (table : UserTable) (u : User)
    → (call around phone table).0 ≡ ok u
    → find (is_user_of phone) (call around phone table).1.users ≡ some u
unfolding find_or_create
call_ok around phone table u e = ground (
  arith,
  e,
  Reply-cases around.inserting,
  Reply-cases around.selecting,
  Option-cases (
      find (is_user_of phone)
        (around.others (insert_user phone (nickname_of around.random) table)).users),
)

-- The user before the call, if there was one.
call-known :
    (around : Surroundings) (phone : Text) (table : UserTable) (u : User) (old : Option User)
    → find (is_user_of phone) table.users ≡ old
    → (call around phone table).0 ≡ ok u
    → (old ≡ none) ⊎ (old ≡ some u)
call-known around phone table u none e success = inl refl
call-known around phone table u (some v) e success =
    let kept = History-keeps (is_user_of phone) v e (call-History around phone table) in
    inr (sym kept ∙ call_ok around phone table u success)

-- One account for a phone: on a table whose keys hold, a call of FindOrCreate that succeeds gives the
-- user of the phone who was there, as he was, or a new one; exactly one row has the phone then; and
-- every later call for the phone that succeeds gives the same user, whatever first logins and lost
-- replies lie within and between the calls.
pub one_account :
    (first second : Surroundings) (phone : Text) (start between : UserTable) (u v : User)
    → IsTable start
    → (call first phone start).0 ≡ ok u
    → History (call first phone start).1 between
    → (call second phone between).0 ≡ ok v
    → (v ≡ u)
      × (u.phone ≡ phone)
      × ((find (is_user_of phone) start.users ≡ none)
          ⊎ (find (is_user_of phone) start.users ≡ some u))
      × (count (is_user_of phone) (call first phone start).1.users ≡ 1)
one_account first second phone start between u v t e h e' =
    let made = call_ok first phone start u e in
    let kept =
      History-keeps (is_user_of phone) u made
        (History-trans h (call-History second phone between)) in
    let told = call_ok second phone between v e' in
    let after = History-IsTable t (call-History first phone start) in
    (
      cc,
      same_text_sound u.phone phone (find_sound (is_user_of phone) _ u made),
      call-known first phone start u (find (is_user_of phone) start.users) refl e,
      omega (arith, after.phones phone, count-find (is_user_of phone) _ u made),
    )
