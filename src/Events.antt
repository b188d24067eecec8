-- ===== src/Events.antt =====
-- include/eventbook/common/identifiers.hpp, include/eventbook/data/events.hpp and
-- src/data/events.cpp: identifiers and the normalized events. An instant is its count of
-- microseconds since the epoch, an integer.
use eventbook.Prelude.{ℕ, Bool, Option, none, some, List, Bytes, bytes_eq}
use eventbook.Prelude.Int.{ℤ}
use eventbook.Price.{Price}
use eventbook.Quantity.{Quantity, QuantityDelta}

pub record MarketTicker : Type 0 where
  pub value : Bytes

pub record EventTicker : Type 0 where
  pub value : Bytes

pub record SequenceNumber : Type 0 where
  pub value : ℕ

pub record SubscriptionId : Type 0 where
  pub value : ℤ

abbrev pub same_market : MarketTicker → MarketTicker → Bool
same_market a b = bytes_eq a.value b.value

pub record ExchangeTimestamp : Type 0 where
  pub micros : ℤ

pub record LocalTimestamp : Type 0 where
  pub micros : ℤ

pub data BookSide : Type 0 where
  bid ask : BookSide

pub data TradeSide : Type 0 where
  buy_yes sell_yes : TradeSide

pub record BookLevel : Type 0 where
  pub price : Price
  pub quantity : Quantity

pub record BookSnapshot : Type 0 where
  pub market_ticker : MarketTicker
  pub subscription : SubscriptionId
  pub sequence : SequenceNumber
  pub bids : List BookLevel
  pub asks : List BookLevel

pub record BookDelta : Type 0 where
  pub market_ticker : MarketTicker
  pub subscription : SubscriptionId
  pub sequence : SequenceNumber
  pub side : BookSide
  pub price : Price
  pub delta : QuantityDelta
  pub exchange_time : Option ExchangeTimestamp

pub record PublicTrade : Type 0 where
  pub market_ticker : MarketTicker
  pub subscription : SubscriptionId
  pub trade_id : Bytes
  pub yes_price : Price
  pub quantity : Quantity
  pub taker_side : TradeSide
  pub is_block_trade : Bool
  pub exchange_time : Option ExchangeTimestamp

pub record SubscriptionAck : Type 0 where
  pub command_id : ℤ
  pub channel : Bytes
  pub subscription : SubscriptionId

pub record StreamError : Type 0 where
  pub command_id : ℤ
  pub code : ℤ
  pub message : Bytes
  pub market_ticker : Option MarketTicker

pub record UnhandledMessage : Type 0 where
  pub type : Bytes

pub data MarketEvent : Type 0 where
  snapshot : BookSnapshot → MarketEvent
  delta : BookDelta → MarketEvent
  trade : PublicTrade → MarketEvent
  ack : SubscriptionAck → MarketEvent
  error : StreamError → MarketEvent
  unhandled : UnhandledMessage → MarketEvent

unfoldable pub market_ticker_of : MarketEvent → Option MarketTicker
market_ticker_of (snapshot s) = some s.market_ticker
market_ticker_of (delta d) = some d.market_ticker
market_ticker_of (trade t) = some t.market_ticker
market_ticker_of (ack a) = none
market_ticker_of (error e) = e.market_ticker
market_ticker_of (unhandled u) = none

unfoldable pub sequence_of : MarketEvent → Option SequenceNumber
sequence_of (snapshot s) = some s.sequence
sequence_of (delta d) = some d.sequence
sequence_of (trade t) = none
sequence_of (ack a) = none
sequence_of (error e) = none
sequence_of (unhandled u) = none
