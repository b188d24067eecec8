-- ===== src/Market/FieldReader.antt =====
-- The class `FieldReader` of src/api/market.cpp. A method returns its value and the `error_` that it
-- leaves behind; only the first error is kept.
use eventbook.Prelude.{
  Bool, true, false, not, Option, none, some, List, [], ◌∷◌, if◌then◌else◌, Bytes, codes, Result,
  ok, failure,
}
use eventbook.Prelude.Int.{pos}
use eventbook.Price.{Price, PriceRange, price, parse_price}
use eventbook.Quantity.{Quantity, quantity, parse_quantity}
use eventbook.Events.{ExchangeTimestamp}
use eventbook.Time.{parse_rfc3339}
use eventbook.Json.{JsonLibrary}
use eventbook.Market.{
  MarketParseError, MarketParseErrorKind, missing_field, wrong_field_type, invalid_price,
  invalid_quantity, invalid_timestamp, invalid_price_range,
}

abbrev pub Reader {ℓ} : Type ℓ → Type ℓ
Reader A = Option MarketParseError → A × Option MarketParseError

infixl 5 ◌>>=◌
abbrev pub ◌>>=◌ {ℓ κ} : {A : Type ℓ} {B : Type κ} → Reader A → (A → Reader B) → Reader B
(m >>= f) error = let (a, after) = m error in f a after

abbrev pub return {ℓ} : {A : Type ℓ} → A → Reader A
return a error = (a, error)

abbrev pub parse_error : MarketParseErrorKind → Bytes → MarketParseError
parse_error kind field = record { kind = kind; field = field }

-- `record(kind, field)`, and then `return fallback`.
unfoldable pub record_error {ℓ} : {A : Type ℓ} → MarketParseErrorKind → Bytes → A → Reader A
record_error kind field fallback none = (fallback, some (parse_error kind field))
record_error kind field fallback (some e) = (fallback, some e)

abbrev pub no_time : ExchangeTimestamp
no_time = record { micros = pos 0 }

module _ (lib : JsonLibrary) (object : lib.Json) where
  -- The private `find`, with a predicate that also reads the value.
  unfoldable pub find_value : {A : Type 0} → (lib.Json → Option A) → Bytes → Reader (Option A)
  find_value read field = elim (lib.find object field) [
    | none ↦ record_error missing_field field none
    | some value ↦ elim (read value) [
      | none ↦ record_error wrong_field_type field none
      | some a ↦ return (some a)
    ]
  ]

  unfoldable pub string_field : Bytes → Reader Bytes
  string_field field =
      find_value lib.as_string field >>= elim [ none ↦ return [] | some text ↦ return text ]

  unfoldable pub bool_field : Bytes → Reader Bool
  bool_field field =
      find_value lib.as_bool field >>= elim [ none ↦ return false | some b ↦ return b ]

  unfoldable pub price_field : Bytes → Reader Price
  price_field field = find_value lib.as_string field >>= elim [
    | none ↦ return (price (pos 0))
    | some text ↦ elim (parse_price text) [
      | failure e ↦ record_error invalid_price field (price (pos 0))
      | ok p ↦ return p
    ]
  ]

  unfoldable pub quantity_field : Bytes → Reader Quantity
  quantity_field field = find_value lib.as_string field >>= elim [
    | none ↦ return (quantity (pos 0))
    | some text ↦ elim (parse_quantity text) [
      | failure e ↦ record_error invalid_quantity field (quantity (pos 0))
      | ok q ↦ return q
    ]
  ]

  unfoldable pub timestamp_field : Bytes → Reader ExchangeTimestamp
  timestamp_field field = find_value lib.as_string field >>= elim [
    | none ↦ return no_time
    | some text ↦ elim (parse_rfc3339 text) [
      | failure e ↦ record_error invalid_timestamp field no_time
      | ok t ↦ return t
    ]
  ]

  -- `!object_.contains(field) || object_.at(field).is_null()`.
  unfoldable pub is_absent : Bytes → Bool
  is_absent field = elim (lib.find object field) [ none ↦ true | some value ↦ lib.is_null value ]

  unfoldable pub optional_timestamp_field : Bytes → Reader (Option ExchangeTimestamp)
  optional_timestamp_field field =
      if is_absent field then return none else (timestamp_field field >>= λ t. return (some t))

  unfoldable pub optional_string_field : Bytes → Reader (Option Bytes)
  optional_string_field field =
      if is_absent field then return none else (string_field field >>= λ s. return (some s))

-- The three fields of a band. The step is an absolute price that denotes a distance.
unfoldable pub band_fields : (lib : JsonLibrary) → lib.Json → Reader PriceRange
band_fields lib element = do
  start ← price_field lib element (codes "start")
  end ← price_field lib element (codes "end")
  step ← price_field lib element (codes "step")
  return (record { start = start; end = end; step = record { units = step.units } })

-- What a reader that began without an error ends with.
abbrev pub checked {ℓ} : {A : Type ℓ} → A × Option MarketParseError → Result A MarketParseError
checked (a, none) = ok a
checked (a, some e) = failure e

-- One element of the array, under a reader of its own; `none` where the source records an error.
unfoldable pub read_band : (lib : JsonLibrary) → lib.Json → Option PriceRange
read_band lib element =
    if not (lib.is_object element)
    then none
    else elim (checked (band_fields lib element none)) [ failure e ↦ none | ok band ↦ some band ]

-- The loop over the elements.
unfoldable pub read_bands : (lib : JsonLibrary) → List lib.Json → Option (List PriceRange)
read_bands lib [] = some []
read_bands lib (element ∷ elements) =
    let later = read_bands lib elements in
    elim (read_band lib element) [
      | none ↦ none
      | some band ↦ elim later [ none ↦ none | some ranges ↦ some (band ∷ ranges) ]
    ]

unfoldable pub price_ranges_field :
    (lib : JsonLibrary) → lib.Json → Bytes → Reader (List PriceRange)
price_ranges_field lib object field = find_value lib object lib.as_array field >>= elim [
  | none ↦ return []
  | some elements ↦ elim (read_bands lib elements) [
    | none ↦ record_error invalid_price_range field []
    | some ranges ↦ return ranges
  ]
]
