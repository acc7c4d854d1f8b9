-- ===== src/Feed/Store/Laws.antt =====
-- A push reaches every recipient, in batches.
use local_life_go.Prelude.{
  subst, ==_iff, ==_refl, inr, inl, Bool-cases, if◌then◌else◌, place_in, take-append-drop,
  length-drop, zero, ℕ, suc, ◌≤◌, ◌≡◌, refl, sym, ap, ◌∙◌, Bool, true, false, List, [], ◌∷◌, ◌++◌,
  arith, ◌==◌, length, take, drop, any,
}
use local_life_go.Effects.{ok, done}
use local_life_go.Feed.{FeedEntry}
use local_life_go.Feed.Store.{
  set_live, newer, add_new, is_member, Feeds, valid_feed_entry, push_all, push_batches, push_entry,
}

module _ (member_leb : ℕ → ℕ → Bool) (entry : FeedEntry) where
  push_all-nil : (feeds : Feeds) → push_all member_leb entry [] feeds ≡ feeds
  unfolding push_all
  push_all-nil feeds = refl

  push_all-append :
      (xs ys : List ℕ) (feeds : Feeds)
      → push_all member_leb entry (xs ++ ys) feeds
        ≡ push_all member_leb entry ys (push_all member_leb entry xs feeds)
  unfolding push_all
  push_all-append [] ys feeds = refl
  push_all-append (id ∷ xs) ys feeds = push_all-append xs ys _

  any-take :
      (n : ℕ) (ids : List ℕ)
      → any (λ id. id == 0) ids ≡ false
      → any (λ id. id == 0) (take n ids) ≡ false
  any-take zero ids h = refl
  any-take (suc n) [] h = refl
  any-take (suc n) (id ∷ ids) h = ground (arith, h, any-take n ids)

  any-drop :
      (n : ℕ) (ids : List ℕ)
      → any (λ id. id == 0) ids ≡ false
      → any (λ id. id == 0) (drop n ids) ≡ false
  any-drop zero ids h = h
  any-drop (suc n) [] h = refl
  any-drop (suc n) (id ∷ ids) h = ground (arith, h, any-drop n ids)

  -- As many rounds as recipients are enough.
  push_batches-all :
      (rounds : ℕ) (cut : ℕ → ℕ) (ids : List ℕ) (feeds : Feeds)
      → length ids ≤ rounds
      → any (λ id. id == 0) ids ≡ false
      → push_batches member_leb rounds (λ _. done) cut entry ids feeds
        ≡ (ok tt, push_all member_leb entry ids feeds)
  unfolding push_batches
  push_batches-all zero cut [] feeds u h = ap (λ after. (ok tt, after)) (sym (push_all-nil feeds))
  push_batches-all zero cut (id ∷ ids) feeds u h = absurd (omega arith)
  push_batches-all (suc rounds) cut [] feeds u h =
      ap (λ after. (ok tt, after)) (sym (push_all-nil feeds))
  push_batches-all (suc rounds) cut (id ∷ ids) feeds u h =
      let rest =
        push_batches-all rounds cut (drop 500 (id ∷ ids))
          (push_all member_leb entry (take 500 (id ∷ ids)) feeds)
          (omega (arith, u, length-drop 500 (id ∷ ids))) (any-drop 500 (id ∷ ids) h) in
      let whole =
        sym (push_all-append (take 500 (id ∷ ids)) (drop 500 (id ∷ ids)) feeds)
        ∙ ap (λ l. push_all member_leb entry l feeds) (take-append-drop 500 (id ∷ ids)) in
      let more : (length (id ∷ ids) == 0) ≡ false = ground arith in
      rw (more, any-take 500 (id ∷ ids) h) (rest ∙ ap (λ after. (ok tt, after)) whole)

  place_in-member :
      (p : FeedEntry → Bool) (entries : List FeedEntry)
      → p entry ≡ true
      → any p (place_in (newer member_leb) entry entries) ≡ true
  place_in-member p [] h = rw h refl
  place_in-member p (x ∷ entries) h =
      ground (arith, h, place_in-member p entries h, Bool-cases (newer member_leb entry x))

  abbrev holds_entry : List FeedEntry → Bool
  holds_entry entries = any (is_member member_leb entry.blog_id) entries

  add_new-member :
      (entries : List FeedEntry) → holds_entry (add_new member_leb entry entries) ≡ true
  unfolding add_new
  add_new-member entries = elim (Bool-cases (holds_entry entries)) [
    | inl there ↦ rw there there
    | inr new ↦
        rw new
          (place_in-member (is_member member_leb entry.blog_id) entries (==_refl entry.blog_id))
  ]

  there_already :
      (entries : List FeedEntry)
      → holds_entry entries ≡ true
      → add_new member_leb entry entries ≡ entries
  unfolding add_new
  there_already entries h = rw h refl

  add_new_again :
      (entries : List FeedEntry)
      → add_new member_leb entry (add_new member_leb entry entries)
        ≡ add_new member_leb entry entries
  add_new_again entries = there_already _ (add_new-member entries)

  -- Whose feed a push writes.
  push_all-live :
      (ids : List ℕ) (feeds : Feeds) (user : ℕ)
      → (push_all member_leb entry ids feeds).live user ≡ (
          if any (λ id. id == user) ids
          then add_new member_leb entry (feeds.live user)
          else feeds.live user)
  unfolding push_all
  push_all-live [] feeds user = refl
  push_all-live (id ∷ ids) feeds user =
      push_all-live ids (set_live member_leb id (add_new member_leb entry (feeds.live id)) feeds)
        user
      ∙ elim (Bool-cases (user == id)) [
        | inl same ↦
            let found : user ≡ id = (==_iff user id).0 same in
            let mine : (id == user) ≡ true =
              subst (λ n. (id == n) ≡ true) (sym found) (==_refl id) in
            rw (same, mine)
              (elim (Bool-cases (any (λ other. other == user) ids)) [
                | inl again ↦ rw again (
                    add_new_again (feeds.live id)
                    ∙ ap (λ n. add_new member_leb entry (feeds.live n)) (sym found))
                | inr once ↦ rw once (ap (λ n. add_new member_leb entry (feeds.live n)) (sym found))
              ])
        | inr other ↦
            let not_mine : (id == user) ≡ false = ground (arith, other) in rw (other, not_mine) refl
      ]

  pub push_all-snapshots :
      (ids : List ℕ) (feeds : Feeds)
      → (push_all member_leb entry ids feeds).snapshots ≡ feeds.snapshots
  unfolding push_all
  push_all-snapshots [] feeds = refl
  push_all-snapshots (id ∷ ids) feeds = push_all-snapshots ids _

  -- A push reaches every recipient and nobody else: where every pipeline is answered, the entry is
  -- valid and no recipient is 0, pushing in batches of 500 succeeds; then the feed of every recipient
  -- has the blog, in the place of its score if it is new there, and otherwise as it was; and the feeds of
  -- the others and the snapshots are as they were.
  pub push_entry-all :
      (cut : ℕ → ℕ) (ids : List ℕ) (feeds : Feeds)
      → valid_feed_entry entry ≡ true
      → any (λ id. id == 0) ids ≡ false
      → let (r, after) = push_entry member_leb (λ _. done) cut ids entry feeds in
        (r ≡ ok tt)
        × (after.snapshots ≡ feeds.snapshots)
        × ((user : ℕ)
            → any (λ id. id == user) ids ≡ true
            → (any (is_member member_leb entry.blog_id) (after.live user) ≡ true)
              × (after.live user ≡ (
                  if any (is_member member_leb entry.blog_id) (feeds.live user)
                  then feeds.live user
                  else place_in (newer member_leb) entry (feeds.live user))))
        × ((user : ℕ) → any (λ id. id == user) ids ≡ false → after.live user ≡ feeds.live user)
  unfolding push_entry add_new
  push_entry-all cut ids feeds v h =
      rw (v, push_batches-all (length ids) cut ids feeds (omega arith) h)
        (
          refl,
          push_all-snapshots ids feeds,
          λ user mine.
              (let written : (push_all member_leb entry ids feeds).live user
                    ≡ add_new member_leb entry (feeds.live user) =
                  push_all-live ids feeds user ∙ rw mine refl in
                (
                  ap (any (is_member member_leb entry.blog_id)) written
                      ∙ add_new-member (feeds.live user),
                  written,
                )),
          λ user others. push_all-live ids feeds user ∙ rw others refl,
        )
