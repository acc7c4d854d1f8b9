-- ===== src/Handler/Requests.antt =====
-- What the handlers read of a request: the numbers of internal/handler/shop.go and geo.go, the JSON of
-- internal/handler/auth.go, the page of internal/handler/community.go.
use local_life_go.Prelude.{
  ℕ, Bool, false, not, ◌||◌, Option, none, some, List, [], ◌∷◌, Text, bytes, same_text, ltb, ◌==◌,
  length, all, is_digit, parse_uint, if◌then◌else◌, ℤ,
}
use local_life_go.AppError.{Kind, Fault}
use local_life_go.Effects.{Result, ok, err, M, pure, from_result, ◌>>=◌}
use local_life_go.Handler.{Request}
use local_life_go.Geo.{Floats, in_range}

abbrev pub max_uint : ℕ
max_uint = 18446744073709551615

abbrev pub invalid : Fault
invalid = Fault.new Kind.validation

unfoldable pub positive : ℕ → Option ℕ → Result ℕ
positive max none = err invalid
positive max (some n) = if n == 0 || ltb max n then err invalid else ok n

unfoldable pub shop_positive_number : Text → ℕ → Result ℕ
unfolding positive
shop_positive_number value max =
    if not (all is_digit value) then err invalid else positive max (parse_uint value)

-- The values of a key: none if it is not there.
abbrev pub values_of : Text → List (Text × List Text) → Option (List Text)
values_of key [] = none
values_of key ((other, values) ∷ rest) =
    if same_text other key then some values else values_of key rest

unfoldable pub number_of : ℕ → ℕ → Option (List Text) → Result ℕ
unfolding shop_positive_number
number_of fallback max none = ok fallback
number_of fallback max (some (value ∷ [])) = shop_positive_number value max
number_of fallback max (some _) = err invalid

abbrev pub shop_query_number : List (Text × List Text) → Text → ℕ → ℕ → Result ℕ
shop_query_number query key fallback max = number_of fallback max (values_of key query)

unfoldable pub geo_number :
    Floats → (Text → Option ℕ) → ℕ → Bool → ℤ → ℤ → Option (List Text) → Result ℕ
geo_number float parse fallback is_required low high none =
    if is_required then err invalid else ok fallback
geo_number float parse fallback is_required low high (some (value ∷ [])) = elim (parse value) [
  | none ↦ err invalid
  | some n ↦ if in_range float n low high then ok n else err invalid
]
geo_number float parse fallback is_required low high (some _) = err invalid

module _ {S : Type 0} where
  -- url.ParseQuery
  abbrev pub parsed_query : Request → M S (List (Text × List Text))
  parsed_query r = from_result (elim r.query [ none ↦ err invalid | some query ↦ ok query ])

  -- communityPage; the other handlers write it out.
  unfoldable pub page_number : List (Text × List Text) → M S (ℕ × ℕ)
  page_number query = do
    page ← from_result (shop_query_number query (bytes "page") 1 1000)
    size ← from_result (shop_query_number query (bytes "page_size") 10 50)
    pure (page, size)

  unfoldable pub community_page : Request → M S (ℕ × ℕ)
  unfolding page_number
  community_page r = do query ← parsed_query r; page_number query

  -- communityID; the other handlers write it out.
  abbrev pub community_id : Request → M S ℕ
  community_id r = from_result (shop_positive_number r.param max_uint)

-- What encoding/json and mime make of a text: a decoder reads one value and leaves the rest.
pub record Json (A : Type 0) : Type 0 where
  pub media_type : Text → Option Text
  pub decode : Text → Option (A × Text)
  pub is_end : Text → Bool

abbrev is_json : Option Text → Bool
is_json none = false
is_json (some media_type) = same_text media_type (bytes "application/json")

abbrev read_json : {A : Type 0} → Json A → Option (A × Text) → Result A
read_json json none = err invalid
read_json json (some (input, rest)) = if json.is_end rest then ok input else err invalid

unfoldable pub decode_json_limit : {A : Type 0} → Json A → Request → ℕ → Result A
decode_json_limit json r max_bytes =
    if not (is_json (json.media_type r.content_type)) || ltb max_bytes (length r.body)
    then err invalid
    else read_json json (json.decode r.body)

abbrev pub decode_json : {A : Type 0} → Json A → Request → Result A
decode_json json r = decode_json_limit json r 1024
