-- ===== src/Replay.antt =====
-- include/eventbook/replay/replay.hpp and src/replay/replay.cpp: a recording played again.
pub mod Metadata
pub mod MetadataRoundTrip
pub mod Segments
pub mod Observations
pub mod Records
pub mod Live
mod Examples
use eventbook.Prelude.{ℕ, Bool, Option, List, Bytes}
use eventbook.Price.{PriceRange}
use eventbook.Events.{MarketTicker, LocalTimestamp}
use eventbook.WsProtocol.{PriceConvention}
use eventbook.Journal.{JournalError}
use eventbook.MarketState.{MarketStateStats}

pub record SessionMetadata : Type 0 where
  pub market_ticker : MarketTicker
  pub price_convention : PriceConvention
  pub price_grid : List PriceRange
  pub build : Bytes

pub data ReplayErrorKind : Type 0 where
  no_segments journal_failure missing_session_record malformed_metadata parse_failure :
      ReplayErrorKind

pub record ReplayError : Type 0 where
  pub kind : ReplayErrorKind
  -- `none` stands for a default `JournalError`.
  pub journal : Option JournalError
  pub detail : Bytes

-- How a replay ends without a result: an error is returned, or nlohmann/json throws.
pub data Stop : Type 0 where
  thrown : Stop
  failed : ReplayError → Stop

pub record ReplayOptions : Type 0 where
  pub metadata_override : Option SessionMetadata
  pub stop_on_parse_failure : Bool

pub record ReplayResult : Type 0 where
  pub metadata : SessionMetadata
  pub segments : ℕ
  pub records : ℕ
  pub messages : ℕ
  pub lifecycle_records : ℕ
  pub parse_failures : ℕ
  pub market : MarketStateStats
  pub final_state_hash : ℕ
  pub first_record_time : Option LocalTimestamp
  pub last_record_time : Option LocalTimestamp
