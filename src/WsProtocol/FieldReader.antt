-- ===== src/WsProtocol/FieldReader.antt =====
-- The class `FieldReader` of src/api/ws_protocol.cpp, which is not the one of src/api/market.cpp. A
-- method returns its value and the error kept so far.
use eventbook.Prelude.{Bool, false, Option, none, some, [], Bytes, codes, ok, failure}
use eventbook.Prelude.Int.{ℤ, pos}
use eventbook.Price.{Price, price, parse_price}
use eventbook.Quantity.{
  Quantity, quantity, parse_quantity, QuantityDelta, quantity_delta, parse_quantity_delta,
}
use eventbook.Events.{ExchangeTimestamp}
use eventbook.Time.{parse_rfc3339, exchange_time_from_epoch_millis}
use eventbook.Json.{JsonLibrary}
use eventbook.WsProtocol.{
  WsParseError, WsParseErrorKind, missing_field, wrong_field_type, invalid_price, invalid_quantity,
}

abbrev pub WsReader {ℓ} : Type ℓ → Type ℓ
WsReader A = Option WsParseError → A × Option WsParseError

infixl 5 ◌>>=◌
abbrev pub ◌>>=◌ {ℓ κ} : {A : Type ℓ} {B : Type κ} → WsReader A → (A → WsReader B) → WsReader B
(m >>= f) error = let (a, after) = m error in f a after

abbrev pub return {ℓ} : {A : Type ℓ} → A → WsReader A
return a error = (a, error)

abbrev pub parse_error_at : WsParseErrorKind → Bytes → WsParseError
parse_error_at kind field = record { kind = kind; field = field }

-- `record(kind, field)`, and then `return fallback`.
unfoldable pub record_error {ℓ} : {A : Type ℓ} → WsParseErrorKind → Bytes → A → WsReader A
record_error kind field fallback none = (fallback, some (parse_error_at kind field))
record_error kind field fallback (some e) = (fallback, some e)

module _ (lib : JsonLibrary) (object : lib.Json) where
  -- The private `find`, with a predicate that also reads the value.
  unfoldable pub find_value : {A : Type 0} → (lib.Json → Option A) → Bytes → WsReader (Option A)
  find_value read field = elim (lib.find object field) [
    | none ↦ record_error missing_field field none
    | some value ↦ elim (read value) [
      | none ↦ record_error wrong_field_type field none
      | some a ↦ return (some a)
    ]
  ]

  unfoldable pub string_field : Bytes → WsReader Bytes
  string_field field =
      find_value lib.as_string field >>= elim [ none ↦ return [] | some text ↦ return text ]

  unfoldable pub integer_field : Bytes → WsReader ℤ
  integer_field field =
      find_value lib.as_integer field >>= elim [ none ↦ return (pos 0) | some n ↦ return n ]

  -- With the default `false` of `fallback`, which every call uses.
  unfoldable pub bool_field : Bytes → WsReader Bool
  bool_field field = elim (lib.find object field) [
    | none ↦ return false
    | some value ↦ find_value lib.as_bool field >>= elim [ none ↦ return false | some b ↦ return b ]
  ]

  unfoldable pub price_field : Bytes → WsReader Price
  price_field field = find_value lib.as_string field >>= elim [
    | none ↦ return (price (pos 0))
    | some text ↦ elim (parse_price text) [
      | failure e ↦ record_error invalid_price field (price (pos 0))
      | ok p ↦ return p
    ]
  ]

  unfoldable pub quantity_field : Bytes → WsReader Quantity
  quantity_field field = find_value lib.as_string field >>= elim [
    | none ↦ return (quantity (pos 0))
    | some text ↦ elim (parse_quantity text) [
      | failure e ↦ record_error invalid_quantity field (quantity (pos 0))
      | ok q ↦ return q
    ]
  ]

  unfoldable pub quantity_delta_field : Bytes → WsReader QuantityDelta
  quantity_delta_field field = find_value lib.as_string field >>= elim [
    | none ↦ return (quantity_delta (pos 0))
    | some text ↦ elim (parse_quantity_delta text) [
      | failure e ↦ record_error invalid_quantity field (quantity_delta (pos 0))
      | ok d ↦ return d
    ]
  ]

  abbrev pub value_at : {A : Type 0} → (lib.Json → Option A) → Bytes → Option A
  value_at read field = elim (lib.find object field) [ none ↦ none | some value ↦ read value ]

  abbrev pub time_of_text : Option Bytes → Option ExchangeTimestamp
  time_of_text none = none
  time_of_text (some text) = elim (parse_rfc3339 text) [ failure e ↦ none | ok t ↦ some t ]

  -- The millisecond integer first, then the text; it records no error.
  unfoldable pub exchange_time : Option ExchangeTimestamp
  exchange_time = elim (value_at lib.as_integer (codes "ts_ms")) [
    | some millis ↦ some (exchange_time_from_epoch_millis millis)
    | none ↦ time_of_text (value_at lib.as_string (codes "ts"))
  ]

  unfoldable pub optional_string_field : Bytes → Option Bytes
  optional_string_field field = value_at lib.as_string field
