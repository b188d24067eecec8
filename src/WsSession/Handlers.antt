-- ===== src/WsSession/Handlers.antt =====
-- The handlers of `WebSocketSession::Impl`. The text of the subscribe command, the texts of errors and
-- `std::to_string` are parameters; so are nlohmann/json and std::sort, for the parser.
use eventbook.Prelude.{
  ℕ, ◌+◌, ◌%◌, ◌^◌, ◌++◌, leb, ◌==◌, Bool, true, false, not, ◌&&◌, Option, none, some, List, [],
  ◌∷◌, if◌then◌else◌, Bytes, codes, Result, ok, failure, length,
}
use eventbook.Prelude.Int.{ℤ, pos, ◌+ℤ◌}
use eventbook.Events.{LocalTimestamp, MarketEvent, snapshot, delta, trade, ack, error, unhandled}
use eventbook.Json.{JsonLibrary}
use eventbook.WsProtocol.{StdSort, PriceConvention, yes_leg_pricing, no_leg_pricing}
use eventbook.WsProtocol.Messages.{parse_ws_message}
use eventbook.MarketState.{increment}
use eventbook.Journal.Writer.{add_uint64}
use eventbook.WsSession.{
  websocket_host, reconnect_backoff, WsSessionConfig, WsSessionNotice, connecting, connected,
  subscribed, disconnected, reconnecting, parse_failure, stream_error_received, gave_up,
  WsSessionStats,
}

pub record Session : Type 0 where
  pub stats : WsSessionStats
  pub trust_store_ready : Bool
  pub stopping : Bool
  -- An `unsigned` of 32 bits.
  pub attempt : ℕ
  pub command_id : ℤ
  -- Whether `stream` holds one.
  pub has_stream : Bool

abbrev pub no_session_stats : WsSessionStats
no_session_stats = record {
  connections = 0;
  reconnects = 0;
  messages_received = 0;
  bytes_received = 0;
  parse_failures = 0;
  unhandled_messages = 0;
  stream_errors = 0;
}

-- What a handler asks for.
pub data Request : Type 0 where
  notify : WsSessionNotice → Bytes → Request
  start_timer : ℤ → Request
  cancel_timer resolve connect_tcp handshake_tls handshake_websocket read close_stream
        stop_context :
      Request
  write : Bytes → Request
  hand_raw : Bytes → LocalTimestamp → Option MarketEvent → Request
  hand_event : MarketEvent → Request

abbrev pub Handled : Type 0
Handled = Session × List Request

-- After the requests that a handler makes first.
abbrev pub after_requests : List Request → Handled → Handled
after_requests requests (s, later) = (s, requests ++ later)

abbrev pub convention : WsSessionConfig → PriceConvention
convention config = if config.subscription.use_yes_price then yes_leg_pricing else no_leg_pricing

abbrev pub attempts_exhausted : WsSessionConfig → Session → Bool
attempts_exhausted config s =
    not (config.max_reconnect_attempts == 0) && leb config.max_reconnect_attempts s.attempt

module _ (config : WsSessionConfig) (millis_text : ℤ → Bytes) where
  abbrev pub host : Bytes
  host = websocket_host config.environment

  -- From the test of `stopping` on, with the stream gone.
  unfoldable pub schedule_reconnect : Session → Handled
  unfolding reconnect_backoff
  schedule_reconnect s =
      let gone : Session = record s { has_stream = false } in
      let delay = reconnect_backoff s.attempt config.initial_backoff config.max_backoff in
      if s.stopping
      then (gone, [])
      else if attempts_exhausted config s
      then (gone, notify gave_up (codes "reconnect attempts exhausted") ∷ stop_context ∷ [])
      else (
        record gone {
          attempt = (s.attempt + 1) % 2 ^ 32;
          stats = record (s.stats) { reconnects = increment s.stats.reconnects };
        },
        notify reconnecting (millis_text delay ++ codes "ms") ∷ start_timer delay ∷ [],
      )

  unfoldable pub fail : Bytes → Bytes → Session → Handled
  unfolding schedule_reconnect
  fail stage problem s =
      after_requests (notify disconnected (stage ++ codes ": " ++ problem) ∷ [])
        (schedule_reconnect s)

  unfoldable pub connect : Session → Handled
  unfolding websocket_host
  connect s =
      if s.trust_store_ready
      then (record s { has_stream = true }, notify connecting host ∷ resolve ∷ [])
      else (s, notify gave_up (codes "no certificate trust store available") ∷ stop_context ∷ [])

  -- `run`, before the context runs.
  unfoldable pub run : Session → Handled
  unfolding connect
  run s = connect (record s { stopping = false })

  -- The callback for control frames, at a ping.
  unfoldable pub on_ping : Bytes → Session → Handled
  on_ping payload s = (
    record s {
      stats = record (s.stats) {
        bytes_received = add_uint64 s.stats.bytes_received (length payload);
      };
    },
    [],
  )

  -- The completion handlers take the text of the error, if there is one.
  abbrev pub or_fail_at : Bytes → Option Bytes → Session → Handled → Handled
  or_fail_at stage none s next = next
  or_fail_at stage (some problem) s next = fail stage problem s

  unfoldable pub on_timer : Bool → Session → Handled
  unfolding connect
  on_timer is_cancelled s = if not is_cancelled && not s.stopping then connect s else (s, [])

  unfoldable pub on_resolve : Option Bytes → Session → Handled
  unfolding fail
  on_resolve problem s = or_fail_at (codes "resolve") problem s (s, connect_tcp ∷ [])

  -- `on_connected`: whether the name of the host could be set, and the answer of the verification's
  -- setup.
  unfoldable pub on_connected : Bool → Option Bytes → Session → Handled
  unfolding fail
  on_connected is_named problem s =
      if is_named
      then or_fail_at (codes "verify_setup") problem s (s, handshake_tls ∷ [])
      else after_requests (notify disconnected (codes "could not set SNI") ∷ [])
          (schedule_reconnect s)

  unfoldable pub on_tcp_connect : Option Bytes → Bool → Option Bytes → Session → Handled
  unfolding on_connected
  on_tcp_connect problem is_named verify_problem s =
      or_fail_at (codes "connect") problem s (on_connected is_named verify_problem s)

  -- `on_tls_ready`, with the text of the error that signing gave.
  abbrev pub on_tls_ready : Option Bytes → Session → Handled
  on_tls_ready none s = (s, handshake_websocket ∷ [])
  on_tls_ready (some problem) s =
      (s, notify gave_up (codes "signing failed: " ++ problem) ∷ stop_context ∷ [])

  unfoldable pub on_tls_handshake : Option Bytes → Option Bytes → Session → Handled
  unfolding fail
  on_tls_handshake problem signing_problem s =
      or_fail_at (codes "tls_handshake") problem s (on_tls_ready signing_problem s)

  module _ (subscribe_command : ℤ → Bytes) where
    unfoldable pub on_open : Session → Handled
    on_open s =
        let id = s.command_id +ℤ pos 1 in
        (
          record s {
            stats = record (s.stats) { connections = increment s.stats.connections };
            attempt = 0;
            command_id = id;
          },
          notify connected [] ∷ write (subscribe_command id) ∷ [],
        )

    unfoldable pub on_handshake : Option Bytes → Session → Handled
    unfolding fail on_open
    on_handshake problem s = or_fail_at (codes "ws_handshake") problem s (on_open s)

  unfoldable pub on_write : Option Bytes → Session → Handled
  unfolding fail
  on_write problem s = or_fail_at (codes "subscribe") problem s (s, read ∷ [])

  -- `reconnect` and `stop`, on the context's thread.
  abbrev pub close_requests : Session → List Request
  close_requests s = if s.has_stream then close_stream ∷ [] else []

  unfoldable pub on_reconnect : Session → Handled
  unfolding schedule_reconnect
  on_reconnect s =
      if s.stopping
      then (s, [])
      else after_requests (close_requests s) (schedule_reconnect (record s { attempt = 0 }))

  unfoldable pub on_stop : Session → Handled
  on_stop s = (record s { stopping = true }, cancel_timer ∷ (close_requests s ++ stop_context ∷ []))

  module _ (lib : JsonLibrary) (std : StdSort) where
    -- The counters and notices for an event.
    unfoldable pub note_event : MarketEvent → Session → Handled
    note_event (unhandled m) s = (
      record s {
        stats = record (s.stats) { unhandled_messages = increment s.stats.unhandled_messages };
      },
      [],
    )
    note_event (error m) s = (
      record s { stats = record (s.stats) { stream_errors = increment s.stats.stream_errors } },
      notify stream_error_received m.message ∷ [],
    )
    note_event (ack m) s = (s, notify subscribed m.channel ∷ [])
    note_event (snapshot m) s = (s, [])
    note_event (delta m) s = (s, [])
    note_event (trade m) s = (s, [])

    unfoldable pub on_message : Bytes → LocalTimestamp → Session → Handled
    unfolding note_event
    on_message payload received_at s =
        let counted : Session = record s {
          stats = record (s.stats) {
            messages_received = increment s.stats.messages_received;
            bytes_received = add_uint64 s.stats.bytes_received (length payload);
          };
        } in
        elim (parse_ws_message lib std payload (convention config)) [
          | failure e ↦ (
            record counted {
              stats = record (counted.stats) {
                parse_failures = increment counted.stats.parse_failures;
              };
            },
            hand_raw payload received_at none ∷ notify parse_failure payload ∷ read ∷ [],
          )
          | ok event ↦
              let (noted, notices) = note_event event counted in
              (
                noted,
                hand_raw payload received_at (some event)
                    ∷ (notices ++ hand_event event ∷ read ∷ []),
              )
        ]

    unfoldable pub on_read : Result Bytes Bytes → LocalTimestamp → Session → Handled
    unfolding fail on_message
    on_read (failure problem) received_at s =
        if s.stopping then (s, []) else fail (codes "read") problem s
    on_read (ok payload) received_at s = on_message payload received_at s
