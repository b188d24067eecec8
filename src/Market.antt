-- ===== src/Market.antt =====
-- include/eventbook/api/market.hpp and src/api/market.cpp: the metadata of a market.
pub mod FieldReader
pub mod Reading
pub mod FirstFailure
mod Examples
use eventbook.Prelude.{
  ◌≡◌, refl, Bool, true, false, Option, none, some, List, [], ◌∷◌, if◌then◌else◌, Bytes, bytes_eq,
  bytes_eq_iff, codes, ◌⊎◌, inl, inr, arith,
}
use eventbook.Price.{Price, PriceRange}
use eventbook.Quantity.{Quantity}
use eventbook.Events.{MarketTicker, EventTicker, ExchangeTimestamp}

pub data MarketStatus : Type 0 where
  initialized active closed determined finalized unknown : MarketStatus

unfoldable pub market_status_from_string : Bytes → MarketStatus
market_status_from_string text =
    if bytes_eq text (codes "initialized")
    then initialized
    else if bytes_eq text (codes "active")
    then active
    else if bytes_eq text (codes "closed")
    then closed
    else if bytes_eq text (codes "determined")
    then determined
    else if bytes_eq text (codes "finalized")
    then finalized
    else unknown

unfoldable pub to_string : MarketStatus → Bytes
to_string initialized = codes "initialized"
to_string active = codes "active"
to_string closed = codes "closed"
to_string determined = codes "determined"
to_string finalized = codes "finalized"
to_string unknown = codes "unknown"

pub record Market : Type 0 where
  pub ticker : MarketTicker
  pub event_ticker : EventTicker
  pub market_type : Bytes
  pub status : MarketStatus
  pub price_level_structure : Bytes
  pub price_ranges : List PriceRange
  pub open_time : ExchangeTimestamp
  pub close_time : ExchangeTimestamp
  pub expected_expiration_time : Option ExchangeTimestamp
  pub mve_collection_ticker : Option Bytes
  pub yes_bid : Price
  pub yes_ask : Price
  pub yes_bid_size : Quantity
  pub yes_ask_size : Quantity
  pub last_price : Price
  pub volume : Quantity
  pub volume_24h : Quantity
  pub open_interest : Quantity
  pub can_close_early : Bool

-- The optional collection ticker has a value, and that is not empty.
abbrev pub has_text : Option Bytes → Bool
has_text none = false
has_text (some []) = false
has_text (some (c ∷ s)) = true

unfoldable pub is_multivariate : Market → Bool
is_multivariate m = has_text m.mve_collection_ticker

pub data MarketParseErrorKind : Type 0 where
  malformed_json not_an_object missing_field wrong_field_type invalid_price invalid_quantity
        invalid_timestamp invalid_price_range :
      MarketParseErrorKind

pub record MarketParseError : Type 0 where
  pub kind : MarketParseErrorKind
  pub field : Bytes

pub record MarketPage : Type 0 where
  pub markets : List Market
  pub cursor : Bytes

printed : (s : MarketStatus) → market_status_from_string (to_string s) ≡ s
unfolding market_status_from_string to_string bytes_eq
printed initialized = refl
printed active = refl
printed closed = refl
printed determined = refl
printed finalized = refl
printed unknown = refl

known :
    (text : Bytes)
    → (market_status_from_string text ≡ unknown)
      ⊎ (text ≡ to_string (market_status_from_string text))
unfolding market_status_from_string to_string
known text = ground (
  arith,
  bytes_eq_iff text (codes "initialized"),
  bytes_eq_iff text (codes "active"),
  bytes_eq_iff text (codes "closed"),
  bytes_eq_iff text (codes "determined"),
  bytes_eq_iff text (codes "finalized"),
)

-- Every status is read back from its text, and no other text is read as a status that is known.
pub market_status_from_string-to_string :
    (s : MarketStatus) (text : Bytes)
    → (market_status_from_string (to_string s) ≡ s)
      × ((market_status_from_string text ≡ unknown)
          ⊎ (text ≡ to_string (market_status_from_string text)))
market_status_from_string-to_string s text = (printed s, known text)
