-- ===== src/Examples/People.antt =====
-- Logins, likes, follows and vouchers.
use local_life_go.Prelude.{ℕ, ◌≡◌, refl, true, none, [], ◌∷◌, arith, Text, bytes, same_text}
use local_life_go.Effects.{ok, done}
use local_life_go.Auth.{User}
use local_life_go.Auth.Store.{Logins, issue_code, consume_code, code_digest}
use local_life_go.Auth.Store.Laws.{guess_all, code_attempts}
use local_life_go.Social.{Blog, Social}
use local_life_go.Social.Likes.Laws.{IsOnce}
use local_life_go.Social.Follows.{set, set_follow, user_exists}
use local_life_go.Social.Follows.Laws.{IsFollowing, set-IsFollowing}

abbrev no_logins : Logins
no_logins = record { codes = λ _. none; cooldowns = λ _. none; sessions = λ _. none }

-- A digest for these inputs.
abbrev same : Text → Text
same text = text

abbrev issued : Logins
issued = (issue_code same done 10 (bytes "13") (bytes "42") 300000000 60000000 2 no_logins).1

code_attempts_example :
    (consume_code same done 30
      (bytes "13")
      (bytes "42")
      (guess_all same (bytes "13") ((20, bytes "41") ∷ []) issued)).0
    ≡ ok true
unfolding issue_code same_text code_digest
code_attempts_example =
    code_attempts same (bytes "13") 10 300000000 60000000 2 30 (bytes "42") ((20, bytes "41") ∷ [])
      no_logins refl ((omega arith, refl), tt) (omega arith)

abbrev person : ℕ → User
person id = record { id = id; phone = []; nickname = []; avatar = [] }

abbrev post : Blog
post = record {
  id = 4;
  user_id = 7;
  shop_id = 3;
  title = [];
  content = [];
  images = [];
  created_at = 0;
  nickname = [];
  avatar = [];
  like_count = 0;
}

abbrev town : Social
town = record {
  users = person 7 ∷ person 8 ∷ [];
  shops = 3 ∷ [];
  blogs = post ∷ [];
  likes = [];
  follows = [];
  next_id = 5;
  clock = 100;
}

town-IsOnce : IsOnce town
town-IsOnce b u = omega arith

town-IsFollowing : IsFollowing town
town-IsFollowing = ((λ u t. omega arith), (λ u. refl))

set-IsFollowing_example : IsFollowing (set (user_exists done) (set_follow done) 7 8 true town).1
set-IsFollowing_example = set-IsFollowing done done 7 8 true town town-IsFollowing
