-- ===== src/Shop.antt =====
-- The shop service (internal/service/shop.go and shop_update.go) and its queries
-- (internal/repository/shop.go). Times count nanoseconds from the year 1, Go's zero time.
pub mod Rebuild
pub mod Refresh
pub mod Store
use local_life_go.Prelude.{
  ℕ, suc, ◌+◌, ◌-◌, ◌*◌, ◌≤◌, ◌<◌, ◌≡◌, ◌≢◌, refl, sym, ap, subst, ◌∙◌, ◌⊎◌, inl, inr, Bool, true,
  false, not, ◌&&◌, ◌||◌, Option, none, some, List, [], ◌∷◌, ◌++◌, map, arith, if◌then◌else◌, ltb,
  leb, ◌==◌, Bool-cases, Option-cases, is_some, length, take, drop, select, count, find, any, all,
  All, sort_by, Text, bytes, same_text, same_text_refl, same_text_sound, digits, format_uint,
  is_digit,
}
use local_life_go.Effects.{
  Result, ok, err, M, pure, raise, fail_if, attempt, from_result, map_error, map_result, ◌>>=◌,
  ◌>>◌, Reply, done, failed, unacknowledged, answer, written, query, send, first_row, is_ok,
  is_unacknowledged, Result-cases, Reply-cases, check_context, wrap_error,
}
use local_life_go.AppError.{is_record_not_found, Kind, Fault, classified, describe, kind_text}
use local_life_go.Paging.{Page, page_of, bad_page}
use local_life_go.Paging.Laws.{window}

-- internal/model/shop.go; a float64 is kept as its 64 bits, which the code only copies.
pub record ShopType : Type 0 where
  pub id : ℕ
  pub name : Text
  pub icon : Text
  pub sort_order : ℕ

pub record Shop : Type 0 where
  pub id : ℕ
  pub type_id : ℕ
  pub name : Text
  pub address : Text
  pub longitude : ℕ
  pub latitude : ℕ
  pub created_at : ℕ
  pub updated_at : ℕ

pub record ShopTextEdit : Type 0 where
  pub name : Option Text
  pub address : Option Text

-- internal/model/shop_cache.go; no value is an explicit negative entry.
pub record ShopCacheEntry : Type 0 where
  pub id : ℕ
  pub value : Option Shop
  pub refresh_after : ℕ
  pub expires_at : ℕ

pub record ShopSnapshot : Type 0 where
  pub entry : Option ShopCacheEntry
  pub token : Text

pub record ShopTypeView : Type 0 where
  pub id : ℕ
  pub name : Text
  pub icon : Text

pub record ShopView : Type 0 where
  pub id : ℕ
  pub type_id : ℕ
  pub name : Text
  pub address : Text
  pub longitude : ℕ
  pub latitude : ℕ

unfoldable pub shop_view : Shop → ShopView
shop_view row = record {
  id = row.id;
  type_id = row.type_id;
  name = row.name;
  address = row.address;
  longitude = row.longitude;
  latitude = row.latitude;
}

abbrev shop_type_view : ShopType → ShopTypeView
shop_type_view row = record { id = row.id; name = row.name; icon = row.icon }

-- The tables, each in the order of its primary key.
pub record Catalogue : Type 0 where
  pub shop_types : List ShopType
  pub shops : List Shop

abbrev shop_error : Fault → Fault
shop_error e =
    if is_record_not_found e then Fault.wrap Kind.not_found e else Fault.wrap Kind.dependency e

abbrev missing_error : Fault → Fault
missing_error e =
    if is_record_not_found e then Fault.new Kind.not_found else Fault.wrap Kind.dependency e

abbrev set_text : Option Text → Text → Text
set_text none old = old
set_text (some new) old = new

abbrev set_shop : ℕ → ℕ → ShopTextEdit → Shop → Shop
set_shop stamp id edit row =
    if row.id == id
    then record {
      id = row.id;
      type_id = row.type_id;
      name = set_text edit.name row.name;
      address = set_text edit.address row.address;
      longitude = row.longitude;
      latitude = row.latitude;
      created_at = row.created_at;
      updated_at = stamp;
    }
    else row

-- internal/repository/shop.go
unfoldable pub select_types : Reply → M Catalogue (List ShopType)
select_types reply = map_error (Fault.wrap Kind.dependency) (
    query reply
      (λ db. ok (sort_by (λ (a b : ShopType). leb a.sort_order b.sort_order) db.shop_types)))

unfoldable pub select_shops : Reply → ℕ → ℕ → ℕ → M Catalogue (List Shop)
select_shops reply type_id offset limit = map_error (Fault.wrap Kind.dependency) (
    query reply (λ db. ok (
      window offset limit
        (select (λ (row : Shop). type_id == 0 || row.type_id == type_id) db.shops))))

unfoldable pub select_shop : Reply → ℕ → M Catalogue Shop
select_shop reply id =
    map_error missing_error
      (query reply (λ db. first_row (find (λ (row : Shop). row.id == id) db.shops)))

-- The update and the query of one transaction, whose first error, if the server gives one, comes
-- before the COMMIT. An error rolls the update back. GORM stamps the row with the time `stamp`.
unfoldable pub update_text : ℕ → Option Fault → Reply → ℕ → ShopTextEdit → M Catalogue Shop
update_text stamp (some e) commit id edit db = (err (shop_error e), db)
update_text stamp none commit id edit db =
    let changed : Catalogue = record {
      shop_types = db.shop_types;
      shops = map (set_shop stamp id edit) db.shops;
    } in
    elim (first_row (find (λ (row : Shop). row.id == id) changed.shops)) [
      | ok row ↦ (wrap_error shop_error (answer commit (ok row)), written commit db changed)
      | err e ↦ (err (shop_error e), db)
    ]

-- internal/service/shop.go
unfoldable pub types : {S : Type 0} → M S (List ShopType) → M S (List ShopTypeView)
types stored = do rows ← stored; pure (map shop_type_view rows)

unfoldable pub list : {S : Type 0} → (ℕ → ℕ → ℕ → M S (List Shop)) → ℕ → ℕ → ℕ → M S (Page ShopView)
unfolding page_of shop_view
list stored type_id page page_size = do
  fail_if (bad_page page page_size) (Fault.new Kind.validation)
  rows ← stored type_id ((page - 1) * page_size) (page_size + 1)
  pure (page_of shop_view page page_size rows)

-- Where `Detail` goes on after it has looked at the cache: it shows the cached shop (and may ask for
-- a refresh that it does not wait for), says that there is none, or waits for a refresh.
pub data Lookup : Type 0 where
  show : Shop → Bool → Lookup
  missing : Lookup
  wait : Lookup

cached : ℕ → ShopCacheEntry → Option Shop → Lookup
cached now entry (some row) = show row (not (ltb now entry.refresh_after))
cached now entry none = if ltb now entry.refresh_after then missing else wait

looked_up_entry : ℕ → Option ShopCacheEntry → Lookup
unfolding cached
looked_up_entry now none = wait
looked_up_entry now (some entry) =
    if ltb now entry.expires_at then cached now entry entry.value else wait

unfoldable pub looked_up : ℕ → Result ShopSnapshot → Lookup
unfolding looked_up_entry
looked_up now (ok snapshot) = looked_up_entry now snapshot.entry
looked_up now (err _) = wait

-- The answer of `Detail` once it is known: what the context says after the cache was read and after
-- the wait, and what the refresh gave (or why there is none).
answer_of : Lookup → Option Fault → Result Shop → Result ShopView
unfolding shop_view
answer_of (show row refreshes) ctx shared = ok (shop_view row)
answer_of missing ctx shared = err (Fault.new Kind.not_found)
answer_of wait (some e) shared = err e
answer_of wait none shared = map_result shop_view shared

unfoldable pub detail :
    Option Fault
    → Option Fault
    → Option Fault
    → ℕ
    → Result ShopSnapshot
    → Result Shop
    → ℕ
    → Result ShopView
unfolding answer_of looked_up
detail before (some e) after now loaded shared id =
    if id == 0
    then err (Fault.new Kind.validation)
    else elim before [ none ↦ err e | some first ↦ err first ]
detail before none after now loaded shared id =
    if id == 0 then err (Fault.new Kind.validation) else elim before [
      | none ↦ answer_of (looked_up now loaded) after shared
      | some first ↦ err first
    ]

-- internal/service/shop_update.go. The trimming and the count of the characters of a text are of
-- the standard library: `trim` and `runes`, which is none on a text that is not UTF-8.
module _ (trim : Text → Text) (runes : Text → Option ℕ) where
  within_limit : ℕ → Option ℕ → Bool
  within_limit limit none = false
  within_limit limit (some n) = leb n limit

  edited_name : Option Text → Result (Option Text)
  unfolding within_limit
  edited_name none = ok none
  edited_name (some text) =
      if length (trim text) == 0 || not (within_limit 128 (runes (trim text)))
      then err (Fault.new Kind.validation)
      else ok (some (trim text))

  edited_address : Option Text → Result (Option Text)
  unfolding within_limit
  edited_address none = ok none
  edited_address (some text) =
      if not (within_limit 512 (runes (trim text)))
      then err (Fault.new Kind.validation)
      else ok (some (trim text))

  -- With the error of the last step the service still returns the row.
  unfoldable pub update :
      {S : Type 0}
      → (ℕ → ShopTextEdit → M S Shop)
      → (ℕ → M S (Unit {0}))
      → ℕ
      → ShopTextEdit
      → M S (ShopView × Option Fault)
  unfolding edited_name edited_address shop_view
  update update_text invalidate id edit = do
    fail_if (id == 0 || (not (is_some edit.name) && not (is_some edit.address)))
        (Fault.new Kind.validation)
    name ← from_result (edited_name edit.name)
    address ← from_result (edited_address edit.address)
    row ← update_text id (record { name = name; address = address })
    dropped ← attempt (invalidate id)
    pure (shop_view row, elim dropped [ ok _ ↦ none | err e ↦ some (Fault.wrap Kind.dependency e) ])
