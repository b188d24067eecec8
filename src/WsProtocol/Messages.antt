-- ===== src/WsProtocol/Messages.antt =====
-- The five parsers of src/api/ws_protocol.cpp, and `parse_ws_message`. A message has two readers, one
-- on the root and one on `msg`; the error of the first is asked for first.
use eventbook.Prelude.{
  ◌-◌, ◌%◌, ◌^◌, Bool, not, ◌||◌, Option, none, some, List, [], ◌∷◌, ltb, if◌then◌else◌, Bytes,
  bytes_eq, codes, Result, ok, failure,
}
use eventbook.Prelude.Int.{ℤ, pos, negsuc}
use eventbook.Price.{Price, before, parse_price}
use eventbook.Quantity.{QuantityDelta, parse_quantity}
use eventbook.Events.{
  MarketTicker, SubscriptionId, SequenceNumber, BookSide, bid, ask, TradeSide, buy_yes, sell_yes,
  BookLevel, PublicTrade, MarketEvent, snapshot, delta, trade, ack, error, unhandled,
}
use eventbook.OrderBook.Digest.{to_u64}
use eventbook.Json.{JsonLibrary}
use eventbook.WsProtocol.{
  PriceConvention, WsParseError, malformed_json, not_an_object, missing_field, wrong_field_type,
  invalid_side, malformed_level, yes_price_from_book_entry, book_side_from_string, StdSort,
}
use eventbook.WsProtocol.FieldReader.{
  WsReader, ◌>>=◌, return, parse_error_at, record_error, string_field, integer_field, bool_field,
  price_field, quantity_field, quantity_delta_field, exchange_time, optional_string_field,
}

abbrev pub sequence_from : ℤ → SequenceNumber
sequence_from n = record { value = to_u64 n }

-- `static_cast<int>`.
abbrev pub to_i32 : ℤ → ℤ
to_i32 n =
    let low = to_u64 n % 2 ^ 32 in if ltb low (2 ^ 31) then pos low else negsuc (2 ^ 32 - 1 - low)

-- `if (!header.ok()) ...; if (!body.ok()) ...;` and then the event.
abbrev pub after_both {ℓ κ} :
    {A : Type ℓ} {B : Type κ}
    → A × Option WsParseError
    → B × Option WsParseError
    → (A → B → Result MarketEvent WsParseError)
    → Result MarketEvent WsParseError
after_both (a, some e) b f = failure e
after_both (a, none) (b, some e) f = failure e
after_both (a, none) (b, none) f = f a b

module _ (lib : JsonLibrary) (std : StdSort) where
  -- An array of just two strings, a price and a size.
  abbrev pub level_of_pair : List lib.Json → Option BookLevel
  level_of_pair (p ∷ q ∷ []) = elim (lib.as_string p) [
    | none ↦ none
    | some price_text ↦ elim (lib.as_string q) [
      | none ↦ none
      | some size_text ↦ elim (parse_price price_text) [
        | failure e ↦ none
        | ok price ↦ elim (parse_quantity size_text) [
          | failure e ↦ none
          | ok quantity ↦ some (record { price = price; quantity = quantity })
        ]
      ]
    ]
  ]
  level_of_pair _ = none

  unfoldable pub read_level : lib.Json → Option BookLevel
  read_level entry = elim (lib.as_array entry) [ none ↦ none | some pair ↦ level_of_pair pair ]

  abbrev pub on_yes_scale : BookSide → PriceConvention → BookLevel → BookLevel
  on_yes_scale side convention level = record level {
    price = yes_price_from_book_entry level.price side convention;
  }

  -- The loop over the entries.
  unfoldable pub read_entries : BookSide → PriceConvention → List lib.Json → Option (List BookLevel)
  read_entries side convention [] = some []
  read_entries side convention (entry ∷ entries) =
      let later = read_entries side convention entries in
      elim (read_level entry) [
        | none ↦ none
        | some level ↦ elim later [
          | none ↦ none
          | some levels ↦ some (on_yes_scale side convention level ∷ levels)
        ]
      ]

  -- An absent or null array is an empty side.
  unfoldable pub read_levels :
      lib.Json → Bytes → BookSide → PriceConvention → Option (List BookLevel)
  read_levels message field side convention = elim (lib.find message field) [
    | none ↦ some []
    | some value ↦ if lib.is_null value then some [] else elim (lib.as_array value) [
      | none ↦ none
      | some entries ↦ read_entries side convention entries
    ]
  ]

  abbrev pub header_fields : lib.Json → WsReader (SubscriptionId × SequenceNumber)
  header_fields root = do
    sid ← integer_field lib root (codes "sid")
    seq ← integer_field lib root (codes "seq")
    return (record { value = sid }, sequence_from seq)

  abbrev pub ticker_field : lib.Json → WsReader MarketTicker
  ticker_field message = do
    ticker ← string_field lib message (codes "market_ticker")
    return (record { value = ticker })

  abbrev pub higher_price : BookLevel → BookLevel → Bool
  higher_price left right = before right.price left.price

  abbrev pub lower_price : BookLevel → BookLevel → Bool
  lower_price left right = before left.price right.price

  unfoldable pub snapshot_levels :
      lib.Json
      → PriceConvention
      → SubscriptionId × SequenceNumber
      → MarketTicker
      → Result MarketEvent WsParseError
  snapshot_levels message convention (sid, seq) ticker =
      elim (read_levels message (codes "yes_dollars_fp") bid convention) [
        | none ↦ failure (parse_error_at malformed_level (codes "yes_dollars_fp"))
        | some bids ↦ elim (read_levels message (codes "no_dollars_fp") ask convention) [
          | none ↦ failure (parse_error_at malformed_level (codes "no_dollars_fp"))
          | some asks ↦ ok (
              snapshot (record {
                market_ticker = ticker;
                subscription = sid;
                sequence = seq;
                bids = std.sort higher_price bids;
                asks = std.sort lower_price asks;
              }))
        ]
      ]

  unfoldable pub parse_snapshot :
      lib.Json → lib.Json → PriceConvention → Result MarketEvent WsParseError
  parse_snapshot root message convention =
      after_both (header_fields root none) (ticker_field message none)
        (snapshot_levels message convention)

  -- A side, or the error and any side, which is not read then.
  abbrev pub require_side : Option BookSide → Bytes → WsReader BookSide
  require_side none field = record_error invalid_side field bid
  require_side (some side) field = return side

  unfoldable pub delta_fields :
      lib.Json → WsReader (MarketTicker × BookSide × Price × QuantityDelta)
  delta_fields message = do
    ticker ← ticker_field message
    side_text ← string_field lib message (codes "side")
    side ← require_side (book_side_from_string side_text) (codes "side")
    published ← price_field lib message (codes "price_dollars")
    change ← quantity_delta_field lib message (codes "delta_fp")
    return (ticker, side, published, change)

  unfoldable pub parse_delta :
      lib.Json → lib.Json → PriceConvention → Result MarketEvent WsParseError
  parse_delta root message convention =
      after_both (header_fields root none) (delta_fields message none)
        λ (sid, seq) (ticker, side, published, change). ok (
          delta (record {
            market_ticker = ticker;
            subscription = sid;
            sequence = seq;
            side = side;
            price = yes_price_from_book_entry published side convention;
            delta = change;
            exchange_time = exchange_time lib message;
          }))

  -- The loop over the three fields that may name the taker's direction.
  unfoldable pub first_side : lib.Json → List Bytes → Option BookSide
  first_side message [] = none
  first_side message (field ∷ fields) =
      let later = first_side message fields in
      elim (optional_string_field lib message field) [
        | none ↦ later
        | some text ↦ elim (book_side_from_string text) [ none ↦ later | some side ↦ some side ]
      ]

  abbrev pub taker_fields : List Bytes
  taker_fields = codes "taker_side" ∷ codes "taker_outcome_side" ∷ codes "taker_book_side" ∷ []

  abbrev pub trade_side_of : BookSide → TradeSide
  trade_side_of bid = buy_yes
  trade_side_of ask = sell_yes

  unfoldable pub trade_fields : lib.Json → SubscriptionId → WsReader PublicTrade
  trade_fields message sid = do
    ticker ← ticker_field message
    trade_id ← string_field lib message (codes "trade_id")
    yes_price ← price_field lib message (codes "yes_price_dollars")
    quantity ← quantity_field lib message (codes "count_fp")
    is_block_trade ← bool_field lib message (codes "is_block_trade")
    taker ← require_side (first_side message taker_fields) (codes "taker_side")
    return (record {
      market_ticker = ticker;
      subscription = sid;
      trade_id = trade_id;
      yes_price = yes_price;
      quantity = quantity;
      taker_side = trade_side_of taker;
      is_block_trade = is_block_trade;
      exchange_time = exchange_time lib message;
    })

  unfoldable pub parse_trade : lib.Json → lib.Json → Result MarketEvent WsParseError
  parse_trade root message =
      let (sid, after) = integer_field lib root (codes "sid") none in
      after_both (sid, after) (trade_fields message (record { value = sid }) none)
        λ s t. ok (trade t)

  abbrev pub ack_fields : lib.Json → WsReader (Bytes × SubscriptionId)
  ack_fields message = do
    channel ← string_field lib message (codes "channel")
    sid ← integer_field lib message (codes "sid")
    return (channel, record { value = sid })

  unfoldable pub parse_subscribed : lib.Json → lib.Json → Result MarketEvent WsParseError
  parse_subscribed root message =
      after_both (integer_field lib root (codes "id") none) (ack_fields message none)
        λ id (channel, sid).
          ok (ack (record { command_id = id; channel = channel; subscription = sid }))

  abbrev pub optional_ticker : Option Bytes → Option MarketTicker
  optional_ticker none = none
  optional_ticker (some ticker) = some (record { value = ticker })

  abbrev pub error_fields : lib.Json → WsReader (ℤ × Bytes)
  error_fields message = do
    code ← integer_field lib message (codes "code")
    text ← string_field lib message (codes "msg")
    return (to_i32 code, text)

  -- The error of the root is not asked for: the command id may be missing.
  unfoldable pub parse_error : lib.Json → lib.Json → Result MarketEvent WsParseError
  parse_error root message =
      let (id, ignored) = integer_field lib root (codes "id") none in
      after_both (id, none) (error_fields message none)
        λ command_id (code, text). ok (
          error (record {
            command_id = command_id;
            code = code;
            message = text;
            market_ticker =
                optional_ticker (optional_string_field lib message (codes "market_ticker"));
          }))

  abbrev pub is_known_type : Bytes → Bool
  is_known_type type =
      bytes_eq type (codes "orderbook_snapshot")
      || bytes_eq type (codes "orderbook_delta")
      || bytes_eq type (codes "trade")
      || bytes_eq type (codes "subscribed")
      || bytes_eq type (codes "error")

  -- `root.find("msg")`, if it is an object.
  abbrev pub message_of : lib.Json → Option lib.Json
  message_of root = elim (lib.find root (codes "msg")) [
    | none ↦ none
    | some message ↦ if lib.is_object message then some message else none
  ]

  -- The chain of tests on the type, where there is a message.
  unfoldable pub parse_typed :
      Bytes → lib.Json → lib.Json → PriceConvention → Result MarketEvent WsParseError
  parse_typed type root message convention =
      if bytes_eq type (codes "orderbook_snapshot")
      then parse_snapshot root message convention
      else if bytes_eq type (codes "orderbook_delta")
      then parse_delta root message convention
      else if bytes_eq type (codes "trade")
      then parse_trade root message
      else if bytes_eq type (codes "subscribed")
      then parse_subscribed root message
      else if bytes_eq type (codes "error")
      then parse_error root message
      else ok (unhandled (record { type = type }))

  unfoldable pub parse_with_type :
      Bytes → lib.Json → PriceConvention → Result MarketEvent WsParseError
  parse_with_type type root convention = elim (message_of root) [
    | none ↦
        if is_known_type type
        then failure (parse_error_at missing_field (codes "msg"))
        else ok (unhandled (record { type = type }))
    | some message ↦ parse_typed type root message convention
  ]

  unfoldable pub parse_root : lib.Json → PriceConvention → Result MarketEvent WsParseError
  parse_root root convention = elim (lib.find root (codes "type")) [
    | none ↦ failure (parse_error_at missing_field (codes "type"))
    | some value ↦ elim (lib.as_string value) [
      | none ↦ failure (parse_error_at wrong_field_type (codes "type"))
      | some type ↦ parse_with_type type root convention
    ]
  ]

  unfoldable pub parse_ws_message : Bytes → PriceConvention → Result MarketEvent WsParseError
  parse_ws_message json_text convention = elim (lib.parse json_text) [
    | none ↦ failure (parse_error_at malformed_json [])
    | some root ↦
        if not (lib.is_object root)
        then failure (parse_error_at not_an_object [])
        else parse_root root convention
  ]
