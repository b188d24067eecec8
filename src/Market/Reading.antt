-- ===== src/Market/Reading.antt =====
-- `read_market` and the three parsers of response bodies, of src/api/market.cpp.
use eventbook.Prelude.{
  not, none, some, List, [], ◌∷◌, if◌then◌else◌, Bytes, codes, Result, ok, failure,
}
use eventbook.Json.{JsonLibrary}
use eventbook.Market.{
  Market, MarketPage, MarketParseError, malformed_json, not_an_object, missing_field,
  wrong_field_type, market_status_from_string,
}
use eventbook.Market.FieldReader.{
  Reader, ◌>>=◌, return, checked, parse_error, string_field, bool_field, price_field,
  quantity_field, timestamp_field, optional_timestamp_field, optional_string_field,
  price_ranges_field,
}

module _ (lib : JsonLibrary) where
  -- All the fields, in the order of the source.
  unfoldable pub read_fields : lib.Json → Reader Market
  read_fields object = do
    ticker ← string_field lib object (codes "ticker")
    event_ticker ← string_field lib object (codes "event_ticker")
    market_type ← string_field lib object (codes "market_type")
    status ← string_field lib object (codes "status")
    price_level_structure ← string_field lib object (codes "price_level_structure")
    price_ranges ← price_ranges_field lib object (codes "price_ranges")
    open_time ← timestamp_field lib object (codes "open_time")
    close_time ← timestamp_field lib object (codes "close_time")
    expected_expiration_time ←
        optional_timestamp_field lib object (codes "expected_expiration_time")
    mve_collection_ticker ← optional_string_field lib object (codes "mve_collection_ticker")
    yes_bid ← price_field lib object (codes "yes_bid_dollars")
    yes_ask ← price_field lib object (codes "yes_ask_dollars")
    yes_bid_size ← quantity_field lib object (codes "yes_bid_size_fp")
    yes_ask_size ← quantity_field lib object (codes "yes_ask_size_fp")
    last_price ← price_field lib object (codes "last_price_dollars")
    volume ← quantity_field lib object (codes "volume_fp")
    volume_24h ← quantity_field lib object (codes "volume_24h_fp")
    open_interest ← quantity_field lib object (codes "open_interest_fp")
    can_close_early ← bool_field lib object (codes "can_close_early")
    return (record {
      ticker = record { value = ticker };
      event_ticker = record { value = event_ticker };
      market_type = market_type;
      status = market_status_from_string status;
      price_level_structure = price_level_structure;
      price_ranges = price_ranges;
      open_time = open_time;
      close_time = close_time;
      expected_expiration_time = expected_expiration_time;
      mve_collection_ticker = mve_collection_ticker;
      yes_bid = yes_bid;
      yes_ask = yes_ask;
      yes_bid_size = yes_bid_size;
      yes_ask_size = yes_ask_size;
      last_price = last_price;
      volume = volume;
      volume_24h = volume_24h;
      open_interest = open_interest;
      can_close_early = can_close_early;
    })

  -- All fields are read first, and then the source asks for the error.
  unfoldable pub read_market : lib.Json → Result Market MarketParseError
  read_market object =
      if not (lib.is_object object)
      then failure (parse_error not_an_object [])
      else checked (read_fields object none)

  unfoldable pub parse_market : Bytes → Result Market MarketParseError
  parse_market json_text = elim (lib.parse json_text) [
    | none ↦ failure (parse_error malformed_json [])
    | some document ↦ read_market document
  ]

  abbrev pub market_of_response : lib.Json → Result Market MarketParseError
  market_of_response document = elim (lib.find document (codes "market")) [
    | none ↦ failure (parse_error missing_field (codes "market"))
    | some market ↦ read_market market
  ]

  unfoldable pub parse_market_response : Bytes → Result Market MarketParseError
  parse_market_response json_text = elim (lib.parse json_text) [
    | none ↦ failure (parse_error malformed_json [])
    | some document ↦
        if not (lib.is_object document)
        then failure (parse_error not_an_object [])
        else market_of_response document
  ]

  -- The loop over the elements of the page.
  unfoldable pub read_markets : List lib.Json → Result (List Market) MarketParseError
  read_markets [] = ok []
  read_markets (element ∷ elements) =
      let later = read_markets elements in
      elim (read_market element) [
        | failure e ↦ failure e
        | ok market ↦ elim later [ failure e ↦ failure e | ok markets ↦ ok (market ∷ markets) ]
      ]

  -- A missing cursor is an empty one, and so is one that is no string.
  unfoldable pub cursor_of : lib.Json → Bytes
  cursor_of document = elim (lib.find document (codes "cursor")) [
    | none ↦ []
    | some value ↦ elim (lib.as_string value) [ none ↦ [] | some cursor ↦ cursor ]
  ]

  unfoldable pub read_page : lib.Json → Result MarketPage MarketParseError
  read_page document = elim (lib.find document (codes "markets")) [
    | none ↦ failure (parse_error missing_field (codes "markets"))
    | some value ↦ elim (lib.as_array value) [
      | none ↦ failure (parse_error wrong_field_type (codes "markets"))
      | some elements ↦ elim (read_markets elements) [
        | failure e ↦ failure e
        | ok markets ↦ ok (record { markets = markets; cursor = cursor_of document })
      ]
    ]
  ]

  unfoldable pub parse_market_page : Bytes → Result MarketPage MarketParseError
  parse_market_page json_text = elim (lib.parse json_text) [
    | none ↦ failure (parse_error malformed_json [])
    | some document ↦
        if not (lib.is_object document)
        then failure (parse_error not_an_object [])
        else read_page document
  ]
