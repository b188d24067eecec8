-- ===== src/WsSession/Life.antt =====
-- The life of a session: signals handled one after the other.
use eventbook.Prelude.{
  ◌≡◌, refl, inl, inr, Bool, true, false, Option, none, some, List, [], ◌∷◌, All, All-append, Bytes,
  codes, Result, ok, failure, Bool-cases, Result-cases,
}
use eventbook.Prelude.Int.{ℤ}
use eventbook.Events.{LocalTimestamp, MarketEvent, snapshot, delta, trade, ack, error, unhandled}
use eventbook.Json.{JsonLibrary}
use eventbook.WsProtocol.{StdSort}
use eventbook.WsProtocol.Messages.{parse_ws_message}
use eventbook.WsSession.{WsSessionConfig}
use eventbook.WsSession.Handlers.{
  Session, Request, start_timer, resolve, Handled, after_requests, convention, schedule_reconnect,
  fail, or_fail_at, on_timer, on_resolve, on_connected, on_tcp_connect, on_tls_handshake,
  on_handshake, on_write, on_reconnect, on_stop, close_requests, note_event, on_message, on_read,
  on_ping,
}

-- What completes on the context's thread, or is posted to it.
pub data Signal : Type 0 where
  timer_fired : Bool → Signal
  resolved : Option Bytes → Signal
  tcp_connected : Option Bytes → Bool → Option Bytes → Signal
  tls_done : Option Bytes → Option Bytes → Signal
  websocket_done : Option Bytes → Signal
  written : Option Bytes → Signal
  received : Result Bytes Bytes → LocalTimestamp → Signal
  pinged : Bytes → Signal
  reconnect_posted stop_posted : Signal

module _ (config : WsSessionConfig) (millis_text subscribe_command : ℤ → Bytes) (lib : JsonLibrary)
    (std : StdSort) where
  unfoldable pub handle : Signal → Session → Handled
  unfolding on_ping on_timer on_resolve on_tcp_connect on_tls_handshake on_handshake on_write
      on_read on_reconnect on_stop
  handle (timer_fired is_cancelled) s = on_timer config millis_text is_cancelled s
  handle (resolved problem) s = on_resolve config millis_text problem s
  handle (tcp_connected problem is_named verify_problem) s =
      on_tcp_connect config millis_text problem is_named verify_problem s
  handle (tls_done problem signing_problem) s =
      on_tls_handshake config millis_text problem signing_problem s
  handle (websocket_done problem) s = on_handshake config millis_text subscribe_command problem s
  handle (written problem) s = on_write config millis_text problem s
  handle (received answer at) s = on_read config millis_text lib std answer at s
  handle (pinged payload) s = on_ping config millis_text payload s
  handle reconnect_posted s = on_reconnect config millis_text s
  handle stop_posted s = on_stop config millis_text s

  abbrev pub handle_all : List Signal → Session → Handled
  handle_all [] s = (s, [])
  handle_all (signal ∷ signals) s =
      let (s', requests) = handle signal s in after_requests requests (handle_all signals s')

  -- No new attempt to connect.
  abbrev pub IsQuiet : Request → Type 0
  IsQuiet resolve = ⊥
  IsQuiet (start_timer delay) = ⊥
  IsQuiet _ = Unit

  abbrev pub IsStopped : Handled → Type 0
  IsStopped (s, requests) = (s.stopping ≡ true) × All IsQuiet requests

  schedule_reconnect-IsStopped :
      (s : Session) → s.stopping ≡ true → IsStopped (schedule_reconnect config millis_text s)
  unfolding schedule_reconnect
  schedule_reconnect-IsStopped s h = rw (h, schedule_reconnect) (refl, tt)

  fail-IsStopped :
      (stage problem : Bytes) (s : Session)
      → s.stopping ≡ true
      → IsStopped (fail config millis_text stage problem s)
  unfolding fail
  fail-IsStopped stage problem s h =
      let later = schedule_reconnect-IsStopped s h in (later.0, (tt, later.1))

  or_fail_at-IsStopped :
      (stage : Bytes) (problem : Option Bytes) (s : Session) (next : Handled)
      → s.stopping ≡ true
      → IsStopped next
      → IsStopped (or_fail_at config millis_text stage problem s next)
  or_fail_at-IsStopped stage none s next h k = k
  or_fail_at-IsStopped stage (some problem) s next h k = fail-IsStopped stage problem s h

  on_connected-IsStopped :
      (is_named : Bool) (problem : Option Bytes) (s : Session)
      → s.stopping ≡ true
      → IsStopped (on_connected config millis_text is_named problem s)
  unfolding on_connected
  on_connected-IsStopped true problem s h =
      or_fail_at-IsStopped (codes "verify_setup") problem s _ h (h, (tt, tt))
  on_connected-IsStopped false problem s h =
      let later = schedule_reconnect-IsStopped s h in (later.0, (tt, later.1))

  note_event-IsStopped :
      (event : MarketEvent) (s : Session)
      → s.stopping ≡ true
      → IsStopped (note_event config millis_text lib std event s)
  unfolding note_event
  note_event-IsStopped (unhandled m) s h = (h, tt)
  note_event-IsStopped (error m) s h = (h, (tt, tt))
  note_event-IsStopped (ack m) s h = (h, (tt, tt))
  note_event-IsStopped (snapshot m) s h = (h, tt)
  note_event-IsStopped (delta m) s h = (h, tt)
  note_event-IsStopped (trade m) s h = (h, tt)

  on_message-IsStopped :
      (payload : Bytes) (at : LocalTimestamp) (s : Session)
      → s.stopping ≡ true
      → IsStopped (on_message config millis_text lib std payload at s)
  unfolding on_message
  on_message-IsStopped payload at s h =
      elim (Result-cases (parse_ws_message lib std payload (convention config))) [
        | inl (e, p) ↦ rw (p, on_message) (h, (tt, (tt, (tt, tt))))
        | inr (event, p) ↦
            let noted = note_event-IsStopped event _ h in
            rw (p, on_message) (noted.0, (tt, All-append IsQuiet _ _ noted.1 (tt, (tt, tt))))
      ]

  close_requests-IsQuiet : (s : Session) → All IsQuiet (close_requests config millis_text s)
  close_requests-IsQuiet s = elim (Bool-cases s.has_stream) [
    | inl e ↦ rw e (tt, tt)
    | inr e ↦ rw e tt
  ]

  stop-IsStopped : (s : Session) → IsStopped (handle stop_posted s)
  unfolding handle
  stop-IsStopped s = (refl, (tt, All-append IsQuiet _ _ (close_requests-IsQuiet s) (tt, tt)))

  on_timer-IsStopped :
      (is_cancelled : Bool) (s : Session)
      → s.stopping ≡ true
      → IsStopped (on_timer config millis_text is_cancelled s)
  unfolding on_timer
  on_timer-IsStopped true s h = (h, tt)
  on_timer-IsStopped false s h = rw h (refl, tt)

  handle-IsStopped :
      (signal : Signal) (s : Session) → s.stopping ≡ true → IsStopped (handle signal s)
  unfolding handle
  handle-IsStopped (timer_fired is_cancelled) s h = on_timer-IsStopped is_cancelled s h
  handle-IsStopped (resolved problem) s h =
      or_fail_at-IsStopped (codes "resolve") problem s _ h (h, (tt, tt))
  handle-IsStopped (tcp_connected problem is_named verify_problem) s h =
      or_fail_at-IsStopped (codes "connect") problem s _ h
        (on_connected-IsStopped is_named verify_problem s h)
  handle-IsStopped (tls_done problem none) s h =
      or_fail_at-IsStopped (codes "tls_handshake") problem s _ h (h, (tt, tt))
  handle-IsStopped (tls_done problem (some signing)) s h =
      or_fail_at-IsStopped (codes "tls_handshake") problem s _ h (h, (tt, (tt, tt)))
  handle-IsStopped (websocket_done problem) s h =
      or_fail_at-IsStopped (codes "ws_handshake") problem s _ h (h, (tt, (tt, tt)))
  handle-IsStopped (written problem) s h =
      or_fail_at-IsStopped (codes "subscribe") problem s _ h (h, (tt, tt))
  handle-IsStopped (received (failure problem) at) s h = rw h (refl, tt)
  handle-IsStopped (received (ok payload) at) s h = on_message-IsStopped payload at s h
  handle-IsStopped (pinged payload) s h = (h, tt)
  handle-IsStopped reconnect_posted s h = rw h (refl, tt)
  handle-IsStopped stop_posted s h = stop-IsStopped s

  handle_all-IsStopped :
      (signals : List Signal) (s : Session) → s.stopping ≡ true → IsStopped (handle_all signals s)
  handle_all-IsStopped [] s h = (h, tt)
  handle_all-IsStopped (signal ∷ signals) s h =
      let first = handle-IsStopped signal s h in
      let later = handle_all-IsStopped signals ((handle signal s).0) first.0 in
      (later.0, All-append IsQuiet _ _ first.1 later.1)

  -- After a stop was handled the session stays stopped, whatever completes later and in which order, and
  -- none of the handlers resolves the host or arms the timer again.
  pub handle_all-stop :
      (signals : List Signal) (s : Session) → IsStopped (handle_all (stop_posted ∷ signals) s)
  handle_all-stop signals s =
      let first = stop-IsStopped s in
      let later = handle_all-IsStopped signals ((handle stop_posted s).0) first.0 in
      (later.0, All-append IsQuiet _ _ first.1 later.1)
