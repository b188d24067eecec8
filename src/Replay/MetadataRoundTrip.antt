-- ===== src/Replay/MetadataRoundTrip.antt =====
-- The metadata of a session, encoded and decoded.
use eventbook.Prelude.{◌≡◌, refl, some, List, [], ◌∷◌, All, Bytes, bytes_eq, codes, ok}
use eventbook.Prelude.Int.{ℤ, InRange}
use eventbook.Price.{PriceRange}
use eventbook.WsProtocol.{PriceConvention, yes_leg_pricing, no_leg_pricing}
use eventbook.Json.{JsonLibrary}
use eventbook.Json.Writer.{
  text, integer, array, object, BuiltFields, JsonWriter, JsonLaws, lookup, ReadsItems, ReadsFields,
}
use eventbook.Journal.Codec.{value_of}
use eventbook.Journal.Fields.{find-lookup, value_of-lookup}
use eventbook.Replay.{SessionMetadata}
use eventbook.Replay.Metadata.{
  convention_text, convention_from, band_fields, grid_items, metadata_fields,
  encode_session_metadata, int_or_zero, read_band, read_grid, decode_metadata_document,
  decode_session_metadata,
}

convention_from-convention_text : (c : PriceConvention) → convention_from (convention_text c) ≡ c
unfolding bytes_eq
convention_from-convention_text yes_leg_pricing = refl
convention_from-convention_text no_leg_pricing = refl

abbrev pub IsMachineBand : PriceRange → Type 0
IsMachineBand band =
    InRange 31 band.start.units × InRange 31 band.end.units × InRange 31 band.step.units

module _ (lib : JsonLibrary) where
  int_or_zero-lookup :
      (band : lib.Json) (fields : BuiltFields) (name : Bytes) (z : ℤ)
      → ReadsFields lib (lib.find band) fields
      → lookup name fields ≡ some (integer z)
      → InRange 31 z
      → int_or_zero lib band name ≡ ok z
  int_or_zero-lookup band fields name z h here range =
      let (j, e, reads) = find-lookup lib band fields h name (integer z) here in
      rw (e, int_or_zero, reads.1 range) refl

  read_band-fields :
      (band : lib.Json) (range : PriceRange)
      → IsMachineBand range
      → ReadsFields lib (lib.find band) (band_fields range)
      → read_band lib band ≡ ok range
  unfolding read_band bytes_eq
  read_band-fields band range (start, end_price, step) h =
      let fields = band_fields range in
      rw
        (
          int_or_zero-lookup band fields (codes "start") range.start.units h refl start,
          int_or_zero-lookup band fields (codes "end") range.end.units h refl end_price,
          int_or_zero-lookup band fields (codes "step") range.step.units h refl step,
        )
        refl

  read_grid-items :
      (grid : List PriceRange) (bands : List lib.Json)
      → All IsMachineBand grid
      → ReadsItems lib bands (grid_items grid)
      → read_grid lib bands ≡ ok grid
  unfolding read_grid
  read_grid-items [] bands machine h = rw h refl
  read_grid-items (range ∷ grid) bands machine (j, rest, e, (is_object, reading), h) =
      rw
        (
          e,
          read_grid,
          is_object,
          read_band-fields j range machine.0 reading,
          read_grid-items grid rest machine.1 h,
        )
        refl

  decode_metadata_document-fields :
      (document : lib.Json) (m : SessionMetadata)
      → All IsMachineBand m.price_grid
      → ReadsFields lib (lib.find document) (metadata_fields m)
      → decode_metadata_document lib document ≡ ok m
  unfolding decode_metadata_document bytes_eq
  decode_metadata_document-fields document m machine h =
      let text_at = λ (name s : Bytes) (here : lookup name (metadata_fields m) ≡ some (text s)).
        value_of-lookup lib document (metadata_fields m) h lib.as_string name (text s) s here
          (λ j e. e) in
      let ticker = text_at (codes "market_ticker") m.market_ticker.value refl in
      let convention =
        text_at (codes "price_convention") (convention_text m.price_convention) refl in
      let build = text_at (codes "build") m.build refl in
      let (j, found, (items, is_array, reads)) =
        find-lookup lib document (metadata_fields m) h (codes "price_ranges")
          (array (grid_items m.price_grid)) refl in
      rw
        (
          ticker,
          convention,
          build,
          value_of,
          found,
          is_array,
          read_grid-items m.price_grid items machine reads,
          convention_from-convention_text m.price_convention,
        )
        refl

-- The line to which metadata are encoded, with a grid of int32 units, decodes to those metadata.
pub decode_session_metadata-encode :
    (lib : JsonLibrary) (writer : JsonWriter) (laws : JsonLaws lib writer) (m : SessionMetadata)
    (line : Bytes)
    → All IsMachineBand m.price_grid
    → encode_session_metadata writer m ≡ some line
    → decode_session_metadata lib line ≡ ok m
unfolding decode_session_metadata encode_session_metadata
decode_session_metadata-encode lib writer laws m line machine h =
    let (document, parsed, (is_object, reading)) =
      laws.parse-dump (object (metadata_fields m)) line h in
    rw (parsed, decode_session_metadata, is_object)
      (decode_metadata_document-fields lib document m machine reading)
