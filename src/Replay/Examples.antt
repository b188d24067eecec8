-- ===== src/Replay/Examples.antt =====
-- A recording of two segments: the session's record and a message that is no JSON, then the loss of the
-- connection.
use eventbook.Prelude.{
  ℕ, ◌%◌, ◌^◌, ◌≡◌, refl, false, Option, none, some, List, [], ◌∷◌, Bytes, codes, ok, arith,
}
use eventbook.Prelude.Int.{pos}
use eventbook.WsProtocol.{StdSort, no_leg_pricing}
use eventbook.OrderBook.Digest.{state_hash}
use eventbook.Json.Tokens.{token_json, token_writer, token_laws}
use eventbook.Journal.{JournalRecord, JournalRecordKind, session_started, message, connection_lost}
use eventbook.Replay.{SessionMetadata, ReplayOptions, ReplayResult}
use eventbook.Replay.Metadata.{encode_session_metadata, decode_session_metadata}
use eventbook.Replay.MetadataRoundTrip.{decode_session_metadata-encode}
use eventbook.Replay.Segments.{Segment, replay_segments}
use eventbook.Replay.Live.{live_end, replay_segments-live_end}

abbrev cents : SessionMetadata
cents = record {
  market_ticker = record { value = codes "FED" };
  price_convention = no_leg_pricing;
  price_grid =
      record {
        start = record { units = pos 0 };
        end = record { units = pos 10_000 };
        step = record { units = pos 100 };
      }
      ∷ [];
  build = codes "v1";
}

abbrev cents_line : Bytes
cents_line = written_or_empty (encode_session_metadata token_writer cents)
  where
    written_or_empty : Option Bytes → Bytes
    written_or_empty none = []
    written_or_empty (some line) = line

decode_session_metadata-encode_example : decode_session_metadata token_json cents_line ≡ ok cents
unfolding encode_session_metadata
decode_session_metadata-encode_example =
    decode_session_metadata-encode token_json token_writer token_laws cents cents_line
      (((omega arith, omega arith), (omega arith, omega arith), (omega arith, omega arith)), tt)
      refl

abbrev entry : JournalRecordKind → ℕ → Bytes → JournalRecord
entry kind at payload = record {
  kind = kind;
  local_receive_time = record { micros = pos at };
  exchange_time = none;
  connection_id = 1;
  subscription = none;
  sequence = none;
  message_type = [];
  market_ticker = none;
  market_id = none;
  payload = payload;
}

-- It leaves every list as it is.
abbrev no_sort : StdSort
no_sort = record { sort = λ lt xs. xs }

abbrev recording : List Segment
recording =
    record {
      path = codes "a";
      content = ok (entry session_started 1 cents_line ∷ entry message 2 [] ∷ [], none);
    }
    ∷ record { path = codes "b"; content = ok (entry connection_lost 3 [] ∷ [], none) }
    ∷ []

abbrev lenient_options : ReplayOptions
lenient_options = record { metadata_override = none; stop_on_parse_failure = false }

abbrev after_session : List JournalRecord
after_session = entry message 2 [] ∷ entry connection_lost 3 [] ∷ []

replay_segments-live_end_example :
    (result : ReplayResult) × (replay_segments token_json no_sort lenient_options recording
      ≡ ok result)
    × (result.metadata ≡ cents)
    × (result.market
        ≡ (live_end token_json no_sort cents
            (entry session_started 1 cents_line ∷ after_session)).stats)
    × (result.final_state_hash
        ≡ state_hash
            (live_end token_json no_sort cents
              (entry session_started 1 cents_line ∷ after_session)).book)
    × (result.records % 2 ^ 64 ≡ 3 % 2 ^ 64)
unfolding encode_session_metadata
replay_segments-live_end_example =
    replay_segments-live_end token_json no_sort lenient_options refl cents recording
      (entry session_started 1 cents_line) after_session refl refl
      (decode_session_metadata-encode token_json token_writer token_laws cents cents_line
        (((omega arith, omega arith), (omega arith, omega arith), (omega arith, omega arith)), tt)
        refl)
      (
        entry session_started 1 cents_line ∷ entry message 2 [] ∷ [],
        entry connection_lost 3 [] ∷ [],
        refl,
        refl,
        (entry connection_lost 3 [] ∷ [], [], refl, refl, refl),
      )
