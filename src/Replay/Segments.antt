-- ===== src/Replay/Segments.antt =====
-- `replay_segments`. A segment is its path, and what opening it and reading it to the end gives: an
-- error, or the records and the error that ended the reading.
use eventbook.Prelude.{
  ℕ, ◌++◌, Option, none, some, List, [], ◌∷◌, if◌then◌else◌, Bytes, codes, Result, ok, failure,
  ◌>>=◌,
}
use eventbook.Events.{LocalTimestamp}
use eventbook.Json.{JsonLibrary}
use eventbook.WsProtocol.{
  StdSort, WsParseErrorKind, malformed_json, not_an_object, missing_field, wrong_field_type,
  invalid_price, invalid_quantity, invalid_side, malformed_level,
}
use eventbook.WsProtocol.Messages.{parse_ws_message}
use eventbook.MarketState.{MarketState, new_state, apply, on_disconnected, finish, increment}
use eventbook.OrderBook.Digest.{state_hash}
use eventbook.Journal.{
  JournalRecord, JournalRecordKind, session_started, message, connection_lost, JournalError,
}
use eventbook.Replay.{
  SessionMetadata, ReplayErrorKind, no_segments, journal_failure, missing_session_record,
  parse_failure, Stop, failed, ReplayOptions, ReplayResult,
}
use eventbook.Replay.Metadata.{decode_session_metadata}

abbrev pub parse_error_text : WsParseErrorKind → Bytes
parse_error_text malformed_json = codes "malformed JSON"
parse_error_text not_an_object = codes "expected a JSON object"
parse_error_text missing_field = codes "required field missing"
parse_error_text wrong_field_type = codes "field has the wrong JSON type"
parse_error_text invalid_price = codes "field is not a valid price"
parse_error_text invalid_quantity = codes "field is not a valid quantity"
parse_error_text invalid_side = codes "unrecognized side"
parse_error_text malformed_level = codes "orderbook level is malformed"

pub record Segment : Type 0 where
  pub path : Bytes
  pub content : Result (List JournalRecord × Option JournalError) JournalError

-- The local variables of `replay_segments`.
pub record Replay : Type 0 where
  pub segments : ℕ
  pub records : ℕ
  pub messages : ℕ
  pub lifecycle_records : ℕ
  pub parse_failures : ℕ
  pub first_record_time : Option LocalTimestamp
  pub metadata : Option SessionMetadata
  pub state : Option MarketState
  pub last_time : Option LocalTimestamp

abbrev pub start_replay : ReplayOptions → Replay
start_replay options = record {
  segments = 0;
  records = 0;
  messages = 0;
  lifecycle_records = 0;
  parse_failures = 0;
  first_record_time = none;
  metadata = options.metadata_override;
  state = none;
  last_time = none;
}

abbrev pub replay_error : ReplayErrorKind → Bytes → Stop
replay_error kind detail = failed (record { kind = kind; journal = none; detail = detail })

abbrev pub reading_error : JournalError → Bytes → Stop
reading_error problem path =
    failed (record { kind = journal_failure; journal = some problem; detail = path })

abbrev pub first_of_two : Option LocalTimestamp → LocalTimestamp → Option LocalTimestamp
first_of_two none at = some at
first_of_two (some first) at = some first

-- `state.emplace` where there is none yet.
abbrev pub state_or_new : SessionMetadata → Option MarketState → MarketState
state_or_new m none = new_state m.market_ticker m.price_grid
state_or_new m (some s) = s

abbrev pub count_lifecycle : Replay → Replay
count_lifecycle r = record r { lifecycle_records = increment r.lifecycle_records }

abbrev pub note_record : Replay → JournalRecord → Replay
note_record r entry = record r {
  records = increment r.records;
  first_record_time = first_of_two r.first_record_time entry.local_receive_time;
  last_time = some entry.local_receive_time;
}

abbrev pub finish_at : Option LocalTimestamp → MarketState → MarketState
finish_at none state = state
finish_at (some at) state = finish state at

module _ (lib : JsonLibrary) (std : StdSort) (options : ReplayOptions) where
  unfoldable pub start_session : Replay → Bytes → Result Replay Stop
  start_session r payload = elim r.metadata [
    | some m ↦ ok (count_lifecycle r)
    | none ↦ decode_session_metadata lib payload >>= λ m.
        ok (record (count_lifecycle r) { metadata = some m })
  ]

  unfoldable pub replay_message :
      SessionMetadata → Replay → MarketState → JournalRecord → Result Replay Stop
  replay_message m r state entry =
      let counted : Replay = record r { messages = increment r.messages; state = some state } in
      elim (parse_ws_message lib std entry.payload m.price_convention) [
        | failure e ↦
            if options.stop_on_parse_failure
            then failure
                (replay_error parse_failure (parse_error_text e.kind ++ codes " on " ++ e.field))
            else ok (record counted { parse_failures = increment counted.parse_failures })
        | ok event ↦
            ok (record counted { state = some ((apply state event entry.local_receive_time).0) })
      ]

  -- A record after the session's, with the metadata known.
  unfoldable pub replay_market :
      JournalRecordKind → SessionMetadata → Replay → JournalRecord → Result Replay Stop
  unfolding replay_message
  replay_market message m r entry = replay_message m r (state_or_new m r.state) entry
  replay_market connection_lost m r entry = ok (record (count_lifecycle r) {
    state = some (on_disconnected (state_or_new m r.state) entry.local_receive_time);
  })
  replay_market _ m r entry =
      ok (record (count_lifecycle r) { state = some (state_or_new m r.state) })

  abbrev pub with_metadata :
      Bytes
      → JournalRecordKind
      → JournalRecord
      → Replay
      → Option SessionMetadata
      → Result Replay Stop
  with_metadata path kind entry r none = failure (replay_error missing_session_record path)
  with_metadata path kind entry r (some m) = replay_market kind m r entry

  -- The body of the loop over the records.
  unfoldable pub replay_record : Bytes → Replay → JournalRecord → Result Replay Stop
  unfolding start_session replay_market
  replay_record path r entry =
      let noted = note_record r entry in
      elim entry.kind [
        | session_started ↦ start_session noted entry.payload
        | kind ↦ with_metadata path kind entry noted noted.metadata
      ]

  unfoldable pub replay_records : Bytes → Replay → List JournalRecord → Result Replay Stop
  unfolding replay_record
  replay_records path r [] = ok r
  replay_records path r (entry ∷ entries) =
      replay_record path r entry >>= λ r'. replay_records path r' entries

  abbrev pub end_of_reading : Bytes → Option JournalError → Replay → Result Replay Stop
  end_of_reading path none r = ok r
  end_of_reading path (some problem) r = failure (reading_error problem path)

  unfoldable pub replay_segment : Replay → Segment → Result Replay Stop
  unfolding replay_records
  replay_segment r segment = elim segment.content [
    | failure problem ↦ failure (reading_error problem segment.path)
    | ok content ↦
        (replay_records segment.path (record r { segments = increment r.segments }) content.0)
        >>= λ r'. end_of_reading segment.path content.1 r'
  ]

  unfoldable pub replay_all : Replay → List Segment → Result Replay Stop
  unfolding replay_segment
  replay_all r [] = ok r
  replay_all r (segment ∷ segments) = replay_segment r segment >>= λ r'. replay_all r' segments

  -- Without a state, the statistics are the default ones and the hash is that of a new state.
  abbrev pub end_state : SessionMetadata → Replay → MarketState
  end_state m r = elim r.state [
    | none ↦ new_state m.market_ticker m.price_grid
    | some state ↦ finish_at r.last_time state
  ]

  unfoldable pub result_of : Replay → Result ReplayResult Stop
  result_of r = elim r.metadata [
    | none ↦ failure (replay_error missing_session_record [])
    | some m ↦ ok (record {
      metadata = m;
      segments = r.segments;
      records = r.records;
      messages = r.messages;
      lifecycle_records = r.lifecycle_records;
      parse_failures = r.parse_failures;
      market = (end_state m r).stats;
      final_state_hash = state_hash (end_state m r).book;
      first_record_time = r.first_record_time;
      last_record_time = r.last_time;
    })
  ]

  unfoldable pub replay_segments : List Segment → Result ReplayResult Stop
  unfolding replay_all result_of
  replay_segments [] = failure (replay_error no_segments [])
  replay_segments (segment ∷ segments) =
      replay_all (start_replay options) (segment ∷ segments) >>= λ r. result_of r
