-- ===== src/Replay/Metadata.antt =====
-- `encode_session_metadata` and `decode_session_metadata`.
use eventbook.Prelude.{
  Option, none, some, List, [], ◌∷◌, if◌then◌else◌, Bytes, bytes_eq, codes, Result, ok, failure,
  ◌>>=◌, or_fail,
}
use eventbook.Prelude.Int.{ℤ, pos}
use eventbook.Price.{PriceRange}
use eventbook.WsProtocol.{PriceConvention, yes_leg_pricing, no_leg_pricing}
use eventbook.Json.{JsonLibrary}
use eventbook.Json.Writer.{
  text, integer, array, object, BuiltItems, end, item, BuiltFields, stop, field, JsonWriter,
}
use eventbook.Journal.Codec.{value_of}
use eventbook.Replay.{SessionMetadata, malformed_metadata, Stop, thrown, failed}

abbrev pub convention_text : PriceConvention → Bytes
convention_text yes_leg_pricing = codes "yes_leg"
convention_text no_leg_pricing = codes "no_leg"

-- Any other text than "no_leg" is the yes leg.
abbrev pub convention_from : Bytes → PriceConvention
convention_from s = if bytes_eq s (codes "no_leg") then no_leg_pricing else yes_leg_pricing

abbrev pub band_fields : PriceRange → BuiltFields
band_fields band = field (codes "start") (integer band.start.units) (
    field (codes "end") (integer band.end.units)
      (field (codes "step") (integer band.step.units) stop))

abbrev pub grid_items : List PriceRange → BuiltItems
grid_items [] = end
grid_items (band ∷ bands) = item (object (band_fields band)) (grid_items bands)

abbrev pub metadata_fields : SessionMetadata → BuiltFields
metadata_fields m = field (codes "market_ticker") (text m.market_ticker.value) (
    field (codes "price_convention") (text (convention_text m.price_convention)) (
      field (codes "build") (text m.build)
        (field (codes "price_ranges") (array (grid_items m.price_grid)) stop)))

-- `none` where `dump` throws.
unfoldable pub encode_session_metadata : JsonWriter → SessionMetadata → Option Bytes
encode_session_metadata writer m = writer.dump (object (metadata_fields m))

abbrev pub malformed : Bytes → Stop
malformed detail = failed (record { kind = malformed_metadata; journal = none; detail = detail })

module _ (lib : JsonLibrary) where
  -- `band.value(name, 0)`: a missing field is 0, and one that is no number throws.
  abbrev pub int_or_zero : lib.Json → Bytes → Result ℤ Stop
  int_or_zero band name = elim (lib.find band name) [
    | none ↦ ok (pos 0)
    | some value ↦ or_fail (lib.as_int value) thrown
  ]

  unfoldable pub read_band : lib.Json → Result PriceRange Stop
  read_band band = do
    start ← int_or_zero band (codes "start")
    end_price ← int_or_zero band (codes "end")
    step ← int_or_zero band (codes "step")
    ok (record {
      start = record { units = start };
      end = record { units = end_price };
      step = record { units = step };
    })

  unfoldable pub read_grid : List lib.Json → Result (List PriceRange) Stop
  read_grid [] = ok []
  read_grid (band ∷ bands) =
      let rest = read_grid bands in
      if lib.is_object band
      then (read_band band >>= λ range. rest >>= λ ranges. ok (range ∷ ranges))
      else failure (malformed (codes "price_ranges"))

  abbrev pub text_or_empty : Option Bytes → Bytes
  text_or_empty none = []
  text_or_empty (some s) = s

  abbrev pub items_or_none : Option (List lib.Json) → List lib.Json
  items_or_none none = []
  items_or_none (some items) = items

  unfoldable pub decode_metadata_document : lib.Json → Result SessionMetadata Stop
  unfolding read_grid
  decode_metadata_document document = do
    ticker ←
        or_fail (value_of lib document lib.as_string (codes "market_ticker"))
          (malformed (codes "market_ticker"))
    convention ←
        or_fail (value_of lib document lib.as_string (codes "price_convention"))
          (malformed (codes "price_convention"))
    grid ← read_grid (items_or_none (value_of lib document lib.as_array (codes "price_ranges")))
    ok (record {
      market_ticker = record { value = ticker };
      price_convention = convention_from convention;
      price_grid = grid;
      build = text_or_empty (value_of lib document lib.as_string (codes "build"));
    })

  unfoldable pub decode_session_metadata : Bytes → Result SessionMetadata Stop
  unfolding decode_metadata_document
  decode_session_metadata json_text = elim (lib.parse json_text) [
    | none ↦ failure (malformed (codes "not an object"))
    | some document ↦
        if lib.is_object document
        then decode_metadata_document document
        else failure (malformed (codes "not an object"))
  ]
