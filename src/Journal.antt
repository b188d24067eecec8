-- ===== src/Journal.antt =====
-- include/eventbook/data/journal.hpp and src/data/journal.cpp: the journal of a recording, one JSON
-- object to a line.
pub mod Codec
pub mod Fields
pub mod RoundTrip
pub mod Lines
pub mod Chunks
pub mod Decompress
pub mod Reader
pub mod Reading
pub mod WriteRead
pub mod Writer
pub mod Ledger
pub mod Blocks
pub mod Accounts
pub mod Stored
pub mod NothingLost
pub mod Segments
mod Examples
use eventbook.Prelude.{ℕ, Bool, Option, none, some, if◌then◌else◌, Bytes, bytes_eq, codes}
use eventbook.Events.{
  MarketTicker, SubscriptionId, SequenceNumber, ExchangeTimestamp, LocalTimestamp,
}

abbrev pub journal_version : ℕ
journal_version = 1

pub data JournalRecordKind : Type 0 where
  session_started message connection_lost gap_detected snapshot_applied session_ended :
      JournalRecordKind

unfoldable pub kind_text : JournalRecordKind → Bytes
kind_text session_started = codes "session_started"
kind_text message = codes "message"
kind_text connection_lost = codes "connection_lost"
kind_text gap_detected = codes "gap_detected"
kind_text snapshot_applied = codes "snapshot_applied"
kind_text session_ended = codes "session_ended"

unfoldable pub journal_record_kind_from_string : Bytes → Option JournalRecordKind
journal_record_kind_from_string text =
    if bytes_eq text (codes "session_started")
    then some session_started
    else if bytes_eq text (codes "message")
    then some message
    else if bytes_eq text (codes "connection_lost")
    then some connection_lost
    else if bytes_eq text (codes "gap_detected")
    then some gap_detected
    else if bytes_eq text (codes "snapshot_applied")
    then some snapshot_applied
    else if bytes_eq text (codes "session_ended")
    then some session_ended
    else none

pub record JournalRecord : Type 0 where
  pub kind : JournalRecordKind
  pub local_receive_time : LocalTimestamp
  pub exchange_time : Option ExchangeTimestamp
  pub connection_id : ℕ
  pub subscription : Option SubscriptionId
  pub sequence : Option SequenceNumber
  pub message_type : Bytes
  pub market_ticker : Option MarketTicker
  pub market_id : Option Bytes
  pub payload : Bytes

pub data JournalErrorKind : Type 0 where
  cannot_open write_failed read_failed malformed_record unsupported_version missing_field
        compression_failed decompression_failed :
      JournalErrorKind

pub record JournalError : Type 0 where
  pub kind : JournalErrorKind
  pub line : ℕ
  pub detail : Bytes
