-- ===== src/Social/Follows/Laws.antt =====
-- What following changes.
use local_life_go.Prelude.{
  ℕ, ◌≤◌, ◌≡◌, refl, Bool, true, false, not, List, [], ◌∷◌, arith, ltb, ◌==◌, Bool-cases, select,
  count, any,
}
use local_life_go.Effects.{ok, Reply, done, Reply-cases}
use local_life_go.Social.{Follow, Social}
use local_life_go.Social.Follows.{follows_user, set_follow, follow_state, set, user_exists}

count-unfollowed :
    (u t : ℕ) (rows : List Follow)
    → count (follows_user u t) (select (λ r. not (follows_user u t r)) rows) ≡ 0
count-unfollowed u t [] = refl
count-unfollowed u t (r ∷ rows) =
    ground (arith, count-unfollowed u t rows, Bool-cases (follows_user u t r))

count-others :
    (u t v s : ℕ) (rows : List Follow)
    → count (follows_user v s) (select (λ r. not (follows_user u t r)) rows)
      ≤ count (follows_user v s) rows
count-others u t v s [] = omega arith
count-others u t v s (r ∷ rows) = ground (
  arith,
  count-others u t v s rows,
  Bool-cases (follows_user u t r),
  Bool-cases (follows_user v s r),
)

any-count_of :
    (u t : ℕ) (rows : List Follow)
    → any (follows_user u t) rows ≡ ltb 0 (count (follows_user u t) rows)
any-count_of u t [] = refl
any-count_of u t (r ∷ rows) = ground (arith, any-count_of u t rows, Bool-cases (follows_user u t r))

-- After following or unfollowing succeeds, the state that is read is the one that was asked for.
pub set_follow_settles :
    (user_id target_id : ℕ) (wanted : Bool) (db : Social)
    → (set_follow done user_id target_id wanted db).0 ≡ ok tt
    → (follow_state done user_id target_id (set_follow done user_id target_id wanted db).1).0
      ≡ ok wanted
unfolding set_follow follow_state
set_follow_settles u t true db h = ground (arith, h, any-count_of u t db.follows)
set_follow_settles u t false db h = ground (arith, h, count-unfollowed u t db.follows)

-- What the service keeps of the table: nobody follows a user twice, and nobody follows himself.
abbrev pub IsFollowing : Social → Type 0
IsFollowing db =
    ((u t : ℕ) → count (follows_user u t) db.follows ≤ 1)
    × ((u : ℕ) → count (follows_user u u) db.follows ≡ 0)

-- However its statements end, a call of the service leaves no user following another one twice, and
-- none following himself.
pub set-IsFollowing :
    (found_reply reply : Reply) (user_id target_id : ℕ) (wanted : Bool) (db : Social)
    → IsFollowing db
    → IsFollowing (set (user_exists found_reply) (set_follow reply) user_id target_id wanted db).1
unfolding set set_follow user_exists
set-IsFollowing found_reply reply u t wanted db w = (
  (λ v s. ground (
    arith,
    w.0 v s,
    w.0 u t,
    count-others u t v s db.follows,
    any-count_of u t db.follows,
    Bool-cases (u == v),
    Bool-cases (t == s),
    Bool-cases wanted,
    Reply-cases found_reply,
    Reply-cases reply,
  )),
  (λ v. ground (
    arith,
    w.1 v,
    w.0 u t,
    count-others u t v v db.follows,
    Bool-cases (u == v),
    Bool-cases (t == v),
    Bool-cases wanted,
    Reply-cases found_reply,
    Reply-cases reply,
  )),
)
