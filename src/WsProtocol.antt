-- ===== src/WsProtocol.antt =====
-- include/eventbook/api/ws_protocol.hpp and src/api/ws_protocol.cpp: the venue's messages as events.
pub mod FieldReader
pub mod Messages
pub mod Wire
mod Examples
use eventbook.Prelude.{
  Bool, true, false, ◌||◌, Option, none, some, List, if◌then◌else◌, Bytes, bytes_eq, codes,
}
use eventbook.Price.{Price, yes_price_from_no}
use eventbook.Events.{BookSide, bid, ask}

pub data PriceConvention : Type 0 where
  yes_leg_pricing no_leg_pricing : PriceConvention

pub data WsParseErrorKind : Type 0 where
  malformed_json not_an_object missing_field wrong_field_type invalid_price invalid_quantity
        invalid_side malformed_level :
      WsParseErrorKind

pub record WsParseError : Type 0 where
  pub kind : WsParseErrorKind
  pub field : Bytes

unfoldable pub yes_price_from_book_entry : Price → BookSide → PriceConvention → Price
yes_price_from_book_entry published bid convention = published
yes_price_from_book_entry published ask yes_leg_pricing = published
yes_price_from_book_entry published ask no_leg_pricing = yes_price_from_no published

unfoldable pub book_side_from_string : Bytes → Option BookSide
book_side_from_string text =
    if bytes_eq text (codes "yes") || bytes_eq text (codes "bid")
    then some bid
    else if bytes_eq text (codes "no") || bytes_eq text (codes "ask")
    then some ask
    else none

-- `std::sort` with a comparator.
pub record StdSort : Type 1 where
  pub sort : {A : Type 0} → (A → A → Bool) → List A → List A
