-- ===== src/Market/Examples.antt =====
-- A JSON value as data, and a market read from one.
use eventbook.Prelude.{
  ◌≡◌, Bool, true, false, Option, none, some, List, [], ◌∷◌, if◌then◌else◌, Bytes, bytes_eq, codes,
  failure,
}
use eventbook.Json.{JsonLibrary}
use eventbook.Market.{missing_field}
use eventbook.Market.FieldReader.{parse_error}
use eventbook.Market.Reading.{read_market}
use eventbook.Market.FirstFailure.{read_market-fields_spec}

data Json : Type 0 where
  null : Json
  boolean : Bool → Json
  text : Bytes → Json
  object : List (Bytes × Bytes) → Json

abbrev value_at : Bytes → List (Bytes × Bytes) → Option Json
value_at field [] = none
value_at field ((name, value) ∷ fields) =
    let later = value_at field fields in if bytes_eq name field then some (text value) else later

-- Objects of text fields only; it reads no document.
abbrev flat_json : JsonLibrary
flat_json = record {
  Json = Json;
  parse = λ s. none;
  is_object = elim [ object fields ↦ true | _ ↦ false ];
  is_null = elim [ null ↦ true | _ ↦ false ];
  as_string = elim [ text s ↦ some s | _ ↦ none ];
  as_bool = elim [ boolean b ↦ some b | _ ↦ none ];
  as_integer = λ v. none;
  as_unsigned = λ v. none;
  as_int = λ v. none;
  as_array = λ v. none;
  find = λ v field. elim v [ object fields ↦ value_at field fields | _ ↦ none ];
}

-- Without a market type, and with no prices.
abbrev half_a_market : Json
half_a_market = object ((codes "ticker", codes "FED-26") ∷ (codes "event_ticker", codes "FED") ∷ [])

read_market-fields_spec_example :
    read_market flat_json half_a_market ≡ failure (parse_error missing_field (codes "market_type"))
unfolding bytes_eq
read_market-fields_spec_example = read_market-fields_spec flat_json half_a_market
