-- ===== src/Geo/Rebuild.antt =====
-- A rebuild of an index publishes it whole or not at all (Rebuild of internal/service/geo.go, Replace of
-- internal/cache/geo.go and lua/geo_publish.lua beside it).
use local_life_go.Prelude.{
  select, leb, sort_by, true, all, false, Bool-cases, Bool, ◌⊎◌, inr, take-append-drop, ap, sym,
  ◌∙◌, inl, length-drop, take, drop, format_uint, arith, some, refl, [], none, ◌≤◌, ◌∷◌, ◌==◌, ◌++◌,
  ◌≡◌, length, if◌then◌else◌, List, ℕ, zero, suc,
}
use local_life_go.Geo.{
  Environment, Search, World, is_valid_row, publish, replace, GeoKeys, Member, Indexes, Floats,
  add_shops, build, shops, index, for_type, rebuild,
}
use local_life_go.Shop.{Shop}
use local_life_go.Effects.{
  wrap_error, Result-cases, is_unacknowledged, err, send, is_ok, Result, Reply-cases, ok, Reply,
}
use local_life_go.AppError.{Kind, Fault}

add_shops-append :
    (rows more : List Shop) (members : List Member) (float : Floats)
    → add_shops float (rows ++ more) members ≡ add_shops float more (add_shops float rows members)
unfolding add_shops
add_shops-append [] more members float = refl
add_shops-append (row ∷ rows) more members float = add_shops-append rows more _ float

-- The rounds are enough, and the batches make one list.
build_ok :
    (float : Floats) (rounds : ℕ) (replies : ℕ → Reply) (rows : List Shop)
    (members built : List Member)
    → length rows ≤ rounds
    → build float rounds replies rows members ≡ ok built
    → built ≡ add_shops float rows members
unfolding build add_shops
build_ok float zero replies [] members built n e = cc
build_ok float zero replies (row ∷ rows) members built n e = absurd (omega arith)
build_ok float (suc rounds) replies [] members built n e = cc
build_ok float (suc rounds) replies (row ∷ rows) members built n e =
    let all_rows = row ∷ rows in
    let later =
      build_ok float rounds replies (drop 500 all_rows)
        (add_shops float (take 500 all_rows) members) built
        (omega (arith, length-drop {0} 500 all_rows)) in
    elim (Reply-cases (replies rounds)) [
      | inl answered ↦
          later (ground (arith, e, answered))
          ∙ sym (add_shops-append (take 500 all_rows) (drop 500 all_rows) members float)
          ∙ ap (λ l. add_shops float l members) (take-append-drop 500 all_rows)
      | inr (inl (f, failure)) ↦ absurd (ground (arith, e, failure))
      | inr (inr (f, lost)) ↦ absurd (ground (arith, e, lost))
    ]

-- The keys of a whole index of these rows.
abbrev pub whole : Floats → List Shop → GeoKeys
whole float rows = record {
  index = if length rows == 0 then none else some (add_shops float rows []);
  ready = some (format_uint (length rows));
}

-- The indexes with the keys of one category published.
abbrev pub Published : Floats → ℕ → List Shop → Indexes → Indexes → Type 0
Published float type_id rows indexes after =
    ((other : ℕ) → after other ≡ (if other == type_id then whole float rows else indexes other))
    × (length rows ≡ length (add_shops float rows []))

publish-Published :
    (float : Floats) (type_id : ℕ) (rows : List Shop) (temporary : List Member) (indexes : Indexes)
    → (temporary ≡ []) ⊎ (temporary ≡ add_shops float rows [])
    → (publish float type_id (length rows) temporary indexes ≡ (err Fault.other, indexes))
      ⊎ (((publish float type_id (length rows) temporary indexes).0 ≡ ok tt)
          × Published float type_id rows indexes
              (publish float type_id (length rows) temporary indexes).1)
unfolding publish add_shops
publish-Published float type_id [] temporary indexes t = inr (refl, (λ other. refl, refl))
publish-Published float type_id (row ∷ rows) temporary indexes t =
    elim (Bool-cases (length temporary == suc (length rows))) [
      | inr short ↦ inl (ground (arith, short))
      | inl full ↦ elim t [
        | inl empty ↦ absurd (ground (arith, full, ap (length {0}) empty))
        | inr built ↦ inr (
          ground (arith, full),
          (λ other. ground (arith, full, built), ground (arith, full, ap (length {0}) built)),
        )
      ]
    ]

-- Whatever fails, Replace leaves the indexes alone, or publishes all rows for the category; and it
-- publishes where it fails only if the reply to the script was lost.
abbrev Replaced : Floats → Reply → ℕ → List Shop → Indexes → Result (Unit {0}) → Indexes → Type 0
Replaced float reply type_id rows indexes r after =
    ((after ≡ indexes) × (is_ok r ≡ false))
    ⊎ (Published float type_id rows indexes after
        × ((r ≡ ok tt) ⊎ (is_unacknowledged reply ≡ true)))

send-Replaced :
    (float : Floats) (reply : Reply) (type_id : ℕ) (rows : List Shop) (temporary : List Member)
    (indexes : Indexes)
    → (temporary ≡ []) ⊎ (temporary ≡ add_shops float rows [])
    → let (r, after) = send reply (publish float type_id (length rows) temporary) indexes in
      Replaced float reply type_id rows indexes r after
send-Replaced float reply type_id rows temporary indexes t =
    elim (publish-Published float type_id rows temporary indexes t) [
      | inl refused ↦ elim (Reply-cases reply) [
        | inl answered ↦ rw (answered, refused) (inl (refl, refl))
        | inr (inl (e, failure)) ↦ rw failure (inl (refl, refl))
        | inr (inr (e, lost)) ↦ rw (lost, refused) (inl (refl, refl))
      ]
      | inr (success, published) ↦ elim (Reply-cases reply) [
        | inl answered ↦ rw answered (inr (published, inl success))
        | inr (inl (e, failure)) ↦ rw failure (inl (refl, refl))
        | inr (inr (e, lost)) ↦ rw lost (inr (published, inr refl))
      ]
    ]

replace-Replaced :
    (float : Floats) (replies : ℕ → Reply) (expired : Bool) (reply : Reply) (type_id : ℕ)
    (rows : List Shop) (indexes : Indexes)
    → let (r, after) = replace float replies expired reply type_id rows indexes in
      Replaced float reply type_id rows indexes r after
unfolding replace
replace-Replaced float replies expired reply type_id rows indexes =
    elim (Bool-cases (type_id == 0)) [
      | inl no_type ↦ rw no_type (inl (refl, refl))
      | inr type ↦ elim (Bool-cases (all (is_valid_row float type_id) rows)) [
        | inr bad ↦ rw (type, bad) (inl (refl, refl))
        | inl good ↦ elim (Result-cases (build float (length rows) replies rows [])) [
          | inr (e, failure) ↦ rw (type, good, failure) (inl (refl, refl))
          | inl (built, success) ↦
              rw (type, good, success)
                (send-Replaced float reply type_id rows (if expired then [] else built) indexes
                  (elim (Bool-cases expired) [
                    | inl gone ↦ rw gone (inl refl)
                    | inr there ↦ rw there (
                        inr (
                          build_ok float (length rows) replies rows [] built (omega arith) success))
                  ]))
        ]
      ]
    ]

-- The rows of a category, by number.
abbrev pub rows_of : ℕ → World → List Shop
rows_of type_id w =
    sort_by (λ (a b : Shop). leb a.id b.id)
      (select (λ (row : Shop). row.type_id == type_id) w.catalogue.shops)

-- What Rebuild makes of the answer of Replace.
after_replace : List Shop → World → Result (Unit {0}) → Indexes → Result ℕ × World
after_replace rows w (ok _) after =
    (ok (length rows), record { catalogue = w.catalogue; indexes = after })
after_replace rows w (err e) after =
    (err (Fault.wrap Kind.dependency e), record { catalogue = w.catalogue; indexes = after })

after_replace-Replaced :
    (float : Floats) (reply : Reply) (type_id : ℕ) (rows : List Shop) (w : World)
    (r : Result (Unit {0})) (after : Indexes)
    → Replaced float reply type_id rows w.indexes r after
    → let (r', w') = after_replace rows w r after in
      (w'.catalogue ≡ w.catalogue)
      × (((w'.indexes ≡ w.indexes) × (is_ok r' ≡ false))
          ⊎ (Published float type_id rows w.indexes w'.indexes
              × ((r' ≡ ok (length rows)) ⊎ (is_unacknowledged reply ≡ true))))
unfolding after_replace
after_replace-Replaced float reply type_id rows w (ok _) after (inl (same, bad)) = absurd (cc)
after_replace-Replaced float reply type_id rows w (ok _) after (inr (p, _)) =
    (refl, inr (p, inl refl))
after_replace-Replaced float reply type_id rows w (err e) after (inl (same, bad)) =
    (refl, inl (same, refl))
after_replace-Replaced float reply type_id rows w (err e) after (inr (p, inl success)) = absurd (cc)
after_replace-Replaced float reply type_id rows w (err e) after (inr (p, inr lost)) =
    (refl, inr (p, inr lost))

replaced_result :
    (rows : List Shop) (w : World) (r : Result (Unit {0})) (after : Indexes)
    → (let after_world : World = record { catalogue = w.catalogue; indexes = after } in
        let f : Result (Unit {0}) → Result ℕ × World = λ r'.
          elim (wrap_error (Fault.wrap Kind.dependency) r') [
            | ok _ ↦ (ok (length rows), after_world)
            | err e ↦ (err e, after_world)
          ] in
        f r ≡ after_replace rows w r after)
unfolding after_replace
replaced_result rows w (ok _) after = refl
replaced_result rows w (err e) after = refl

-- A rebuild publishes the whole category or nothing: it leaves the tables and the other categories as
-- they are; if it succeeds, the index of the category holds all of its shops, the marker says how many,
-- and so does the result; if it fails, the old index stands, unless the reply to the script was lost.
pub rebuild_publishes :
    (float : Floats) (search : Search) (env : Environment) (type_id : ℕ) (w : World)
    → let (r, after) = rebuild float (shops env) (index float search env) type_id w in
      (after.catalogue ≡ w.catalogue)
      × (((after.indexes ≡ w.indexes) × (is_ok r ≡ false))
          ⊎ (Published float type_id (rows_of type_id w) w.indexes after.indexes
              × ((r ≡ ok (length (rows_of type_id w))) ⊎ (is_unacknowledged env.reply ≡ true))))
unfolding rebuild shops index for_type
rebuild_publishes float search env type_id w = elim (Bool-cases (type_id == 0)) [
  | inl no_type ↦ rw no_type (refl, inl (refl, refl))
  | inr type ↦ elim (Reply-cases env.selected) [
    | inr (inl (e, failure)) ↦ rw (type, failure) (refl, inl (refl, refl))
    | inr (inr (e, lost)) ↦ rw (type, lost) (refl, inl (refl, refl))
    | inl answered ↦
        rw (type, answered)
          (let rows = rows_of type_id w in
            let (r, after) =
              replace float env.batches env.expired env.reply type_id rows w.indexes in
            rw (replaced_result rows w r after) (
              after_replace-Replaced float env.reply type_id rows w r after
                (replace-Replaced float env.batches env.expired env.reply type_id rows w.indexes)))
  ]
]
