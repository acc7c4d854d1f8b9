-- ===== src/Geo/Laws.antt =====
-- What Nearby shows, whatever the index holds (internal/service/geo.go).
use local_life_go.Prelude.{
  sym, ◌∙◌, ap, inr, refl, none, [], Bool-cases, inl, ==_refl, arith, true, Option-cases, ◌==◌,
  some, any, map, All, select, false, ◌≡◌, ◌∷◌, Option, List, Bool, ℕ,
}
use local_life_go.Geo.{bad_query, nearby_index, shops, index, by_ids, nearby}
use local_life_go.Shop.{Shop, shop_view}
use local_life_go.Geo.{
  World, GeoQuery, index, after_hits, nearby, Environment, Search, Floats, row_of, GeoHit,
  nearby_items, NearbyShop,
}
use local_life_go.AppError.{Kind, Fault}
use local_life_go.Effects.{wrap_error, map_error, bind-ok, Result, Result-cases, Reply-cases, ok}

-- The rows that ByIDs fetches are all that the hits need.
row_of-select :
    (id : ℕ) (p : Shop → Bool) (rows : List Shop)
    → ((row : Shop) → row.id ≡ id → p row ≡ true)
    → row_of id (select p rows) ≡ row_of id rows
row_of-select id p [] h = refl
row_of-select id p (row ∷ rows) h =
    ground
      (arith, row_of-select id p rows h, h row, Bool-cases (p row), Option-cases (row_of id rows))

has_id-any :
    (id : ℕ) (ids : List ℕ)
    → any (λ other. id == other) ids ≡ true
    → (row : Shop) → row.id ≡ id
    → any (λ other. row.id == other) ids ≡ true
has_id-any id ids h row e = rw e h

ids_of : List GeoHit → List ℕ
ids_of hits = map (λ (h : GeoHit). h.id) hits

-- Every hit is among those asked for.
AllAsked : List ℕ → List GeoHit → Type 0
AllAsked ids hits = All (λ (hit : GeoHit). any (λ other. hit.id == other) ids ≡ true) hits

AllAsked-more :
    (id : ℕ) (ids : List ℕ) (hits : List GeoHit) → AllAsked ids hits → AllAsked (id ∷ ids) hits
unfolding AllAsked
AllAsked-more id ids [] h = tt
AllAsked-more id ids (hit ∷ hits) h = (ground (arith, h.0), AllAsked-more id ids hits h.1)

AllAsked-self : (hits : List GeoHit) → AllAsked (ids_of hits) hits
unfolding AllAsked ids_of
AllAsked-self [] = tt
AllAsked-self (hit ∷ hits) =
    (ground (arith, ==_refl hit.id), AllAsked-more hit.id (ids_of hits) hits (AllAsked-self hits))

asked-nearby_items :
    (type_id : ℕ) (ids : List ℕ) (rows : List Shop) (hits : List GeoHit)
    → AllAsked ids hits
    → nearby_items type_id (select (λ (row : Shop). any (λ other. row.id == other) ids) rows) hits
      ≡ nearby_items type_id rows hits
unfolding nearby_items AllAsked
asked-nearby_items type_id ids rows [] h = refl
asked-nearby_items type_id ids rows (hit ∷ hits) h =
    rw
      (
        row_of-select hit.id (λ (row : Shop). any (λ other. row.id == other) ids) rows
            (has_id-any hit.id ids h.0),
        asked-nearby_items type_id ids rows hits h.1,
      )
      refl

-- Whether a shop of the category has this number now.
abbrev pub is_listed : ℕ → Option Shop → Bool
is_listed type_id none = false
is_listed type_id (some row) = row.type_id == type_id

abbrev pub Place : Type 0
Place = ℕ × ℕ

abbrev pub place_of : NearbyShop → Place
place_of item = (item.shop.id, item.distance)

abbrev pub hit_place : GeoHit → Place
hit_place hit = (hit.id, hit.distance)

-- An item shows the shop as the table has it.
abbrev pub IsCurrent : ℕ → List Shop → NearbyShop → Type 0
IsCurrent type_id rows item =
    (row : Shop) × (row_of item.shop.id rows ≡ some row)
    × (row.type_id ≡ type_id)
    × (item.shop ≡ shop_view row)

row_of-id : (id : ℕ) (rows : List Shop) (row : Shop) → row_of id rows ≡ some row → row.id ≡ id
row_of-id id [] row e = cc
row_of-id id (first ∷ rows) row e =
    ground (arith, e, row_of-id id rows row, Option-cases (row_of id rows))

places-nearby_items :
    (type_id : ℕ) (rows : List Shop) (hits : List GeoHit)
    → map place_of (nearby_items type_id rows hits)
      ≡ map hit_place (select (λ hit. is_listed type_id (row_of hit.id rows)) hits)
unfolding nearby_items shop_view
places-nearby_items type_id rows [] = refl
places-nearby_items type_id rows (hit ∷ hits) = elim (Option-cases (row_of hit.id rows)) [
  | inl gone ↦ rw gone (places-nearby_items type_id rows hits)
  | inr (row, there) ↦ rw there (
      ground (
        arith,
        row_of-id hit.id rows row there,
        Bool-cases (row.type_id == type_id),
        places-nearby_items type_id rows hits,
      ))
]

IsCurrent-nearby_items :
    (type_id : ℕ) (rows : List Shop) (hits : List GeoHit)
    → All (IsCurrent type_id rows) (nearby_items type_id rows hits)
unfolding nearby_items shop_view
IsCurrent-nearby_items type_id rows [] = tt
IsCurrent-nearby_items type_id rows (hit ∷ hits) = elim (Option-cases (row_of hit.id rows)) [
  | inl gone ↦ rw gone (IsCurrent-nearby_items type_id rows hits)
  | inr (row, there) ↦ rw there (elim (Bool-cases (row.type_id == type_id)) [
    | inr other ↦ rw other (IsCurrent-nearby_items type_id rows hits)
    | inl same ↦ rw same (
      (
        row,
        ap (λ id. row_of id rows) (row_of-id hit.id rows row there) ∙ there,
        ground (arith, same),
        refl,
      ),
      IsCurrent-nearby_items type_id rows hits,
    )
  ])
]

module _ (float : Floats) (search : Search) (env : Environment) where
  -- What follows the hits.
  after_hits-nearby_items :
      (q : GeoQuery) (hits : List GeoHit) (w : World) (items : List NearbyShop)
      → (after_hits float (shops env) (index float search env) q hits w).0 ≡ ok items
      → items ≡ nearby_items q.type_id w.catalogue.shops hits
  unfolding after_hits shops by_ids ids_of
  after_hits-nearby_items q [] w items h = unfold nearby_items in ground (arith, h)
  after_hits-nearby_items q (hit ∷ hits) w items h =
      let asked =
        asked-nearby_items q.type_id (ids_of (hit ∷ hits)) w.catalogue.shops (hit ∷ hits)
          (AllAsked-self (hit ∷ hits)) in
      elim (Reply-cases env.selected) [
        | inl answered ↦ ground (arith, h, answered, asked)
        | inr (inl (e, failure)) ↦ absurd (ground (arith, h, failure))
        | inr (inr (e, lost)) ↦ absurd (ground (arith, h, lost))
      ]

  pub nearby-cases :
      (ctx : Option Fault) (q : GeoQuery) (w : World) (items : List NearbyShop)
      → (nearby float (shops env) (index float search env) ctx q w).0 ≡ ok items
      → (hits : List GeoHit) × ((nearby_index float env.reply search q w.indexes).0 ≡ ok hits)
        × (nearby float (shops env) (index float search env) ctx q w
            ≡ after_hits float (shops env) (index float search env) q hits w)
  unfolding nearby index nearby_index
  nearby-cases ctx q w items h = elim (Bool-cases (bad_query float q)) [
    | inl bad ↦ absurd (ground (arith, h, bad))
    | inr good ↦ elim (Option-cases ctx) [
      | inr (e, over) ↦ absurd (ground (arith, h, good, over))
      | inl go ↦ elim (Result-cases (nearby_index float env.reply search q w.indexes).0) [
        | inr (e, failure) ↦ absurd (ground (arith, h, good, go, failure))
        | inl (hits, found) ↦ (
          hits,
          found,
          rw (good, go)
              (bind-ok (map_error (Fault.wrap Kind.dependency) ((index float search env).nearby q))
                (after_hits float (shops env) (index float search env) q) w hits
                (ap (wrap_error (Fault.wrap Kind.dependency)) found)),
        )
      ]
    ]
  ]

  after_hits-same :
      (q : GeoQuery) (hits : List GeoHit) (w : World)
      → (after_hits float (shops env) (index float search env) q hits w).1 ≡ w
  unfolding after_hits shops by_ids
  after_hits-same q [] w = refl
  after_hits-same q (hit ∷ hits) w = ground (arith, Reply-cases env.selected)

  -- Nearby shows exactly the hits that the tables still list in the category asked for, in the order in
  -- which the index gave them, with their distances and with the shops as the tables have them now; and
  -- it changes nothing.
  pub nearby_ok :
      (ctx : Option Fault) (q : GeoQuery) (w : World) (items : List NearbyShop)
      → (nearby float (shops env) (index float search env) ctx q w).0 ≡ ok items
      → (hits : List GeoHit) × ((nearby_index float env.reply search q w.indexes).0 ≡ ok hits)
        × (map place_of items
            ≡ map hit_place
                (select (λ hit. is_listed q.type_id (row_of hit.id w.catalogue.shops)) hits))
        × All (IsCurrent q.type_id w.catalogue.shops) items
        × ((nearby float (shops env) (index float search env) ctx q w).1 ≡ w)
  nearby_ok ctx q w items h =
      let (hits, found, run) = nearby-cases ctx q w items h in
      let shown =
        after_hits-nearby_items q hits w items
          (sym (ap (λ (r : Result (List NearbyShop) × World). r.0) run) ∙ h) in
      (
        hits,
        found,
        rw shown (places-nearby_items q.type_id w.catalogue.shops hits),
        rw shown (IsCurrent-nearby_items q.type_id w.catalogue.shops hits),
        ap (λ (r : Result (List NearbyShop) × World). r.1) run ∙ after_hits-same q hits w,
      )
