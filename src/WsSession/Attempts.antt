-- ===== src/WsSession/Attempts.antt =====
-- The bound on the attempts to reconnect: how often the handlers arm the timer for another attempt.
use eventbook.Prelude.{
  ℕ, ◌+◌, ◌*◌, ◌^◌, ◌≤◌, ◌<◌, ◌≡◌, refl, Bool, true, false, Option, none, some, List, [], ◌∷◌, ◌++◌,
  Bytes, codes, ok, failure, arith, Bool-cases, Result-cases, inl, inr, if◌then◌else◌,
}
use eventbook.Prelude.Int.{ℤ}
use eventbook.Events.{LocalTimestamp, MarketEvent, snapshot, delta, trade, ack, error, unhandled}
use eventbook.Json.{JsonLibrary}
use eventbook.WsProtocol.{StdSort}
use eventbook.WsProtocol.Messages.{parse_ws_message}
use eventbook.WsSession.{WsSessionConfig}
use eventbook.WsSession.Handlers.{
  Session, Request, start_timer, Handled, after_requests, convention, attempts_exhausted,
  schedule_reconnect, fail, connect, or_fail_at, on_timer, on_connected, close_requests, on_stop,
  note_event, on_message,
}
use eventbook.WsSession.Life.{
  Signal, timer_fired, resolved, tcp_connected, tls_done, websocket_done, written, received, pinged,
  reconnect_posted, stop_posted, handle, handle_all,
}

abbrev timers_of : Request → ℕ
timers_of (start_timer delay) = 1
timers_of _ = 0

-- How often the timer is armed.
abbrev pub timers : List Request → ℕ
timers [] = 0
timers (r ∷ rs) = timers_of r + timers rs

timers-append : (xs ys : List Request) → timers (xs ++ ys) ≡ timers xs + timers ys
timers-append [] ys = omega arith
timers-append (x ∷ xs) ys = omega (arith, timers-append xs ys)

abbrev resets_of : Signal → ℕ
resets_of (websocket_done none) = 1
resets_of reconnect_posted = 1
resets_of _ = 0

-- How many connections opened or reconnections were asked for: each allows all attempts again.
abbrev pub resets : List Signal → ℕ
resets [] = 0
resets (signal ∷ signals) = resets_of signal + resets signals

module _ (config : WsSessionConfig) (millis_text subscribe_command : ℤ → Bytes) (lib : JsonLibrary)
    (std : StdSort) (limited : 1 ≤ config.max_reconnect_attempts)
    (is_unsigned : config.max_reconnect_attempts < 2 ^ 32) where
  abbrev limit : ℕ
  limit = config.max_reconnect_attempts

  -- The count stays within the limit, and what is armed is counted, but for an allowance.
  abbrev Spends : ℕ → Session → Handled → Type 0
  Spends allowance s (s', requests) =
      (s'.attempt ≤ limit) × (timers requests + s.attempt ≤ s'.attempt + allowance)

  not_exhausted : (s : Session) → attempts_exhausted config s ≡ false → s.attempt < limit
  not_exhausted s h = ground arith

  schedule_reconnect-Spends :
      (s : Session) → s.attempt ≤ limit → Spends 0 s (schedule_reconnect config millis_text s)
  unfolding schedule_reconnect
  schedule_reconnect-Spends s h = elim (Bool-cases s.stopping) [
    | inl e ↦ rw (e, schedule_reconnect) (h, omega arith)
    | inr e ↦ elim (Bool-cases (attempts_exhausted config s)) [
      | inl x ↦ rw (e, schedule_reconnect, x) (h, omega arith)
      | inr x ↦
          rw (e, schedule_reconnect, x)
            (omega (arith, not_exhausted s x), omega (arith, not_exhausted s x))
    ]
  ]

  fail-Spends :
      (stage problem : Bytes) (s : Session)
      → s.attempt ≤ limit
      → Spends 0 s (fail config millis_text stage problem s)
  unfolding fail
  fail-Spends stage problem s h =
      let later = schedule_reconnect-Spends s h in (later.0, omega (arith, later.1))

  or_fail_at-Spends :
      (allowance : ℕ) (stage : Bytes) (problem : Option Bytes) (s : Session) (next : Handled)
      → s.attempt ≤ limit
      → Spends allowance s next
      → Spends allowance s (or_fail_at config millis_text stage problem s next)
  or_fail_at-Spends allowance stage none s next h k = k
  or_fail_at-Spends allowance stage (some problem) s next h k =
      let failed = fail-Spends stage problem s h in (failed.0, omega (arith, failed.1))

  on_connected-Spends :
      (is_named : Bool) (problem : Option Bytes) (s : Session)
      → s.attempt ≤ limit
      → Spends 0 s (on_connected config millis_text is_named problem s)
  unfolding on_connected
  on_connected-Spends true problem s h =
      or_fail_at-Spends 0 (codes "verify_setup") problem s _ h (h, omega arith)
  on_connected-Spends false problem s h =
      let later = schedule_reconnect-Spends s h in (later.0, omega (arith, later.1))

  abbrev allowance_of : Signal → ℕ
  allowance_of (websocket_done none) = limit
  allowance_of reconnect_posted = limit
  allowance_of _ = 0

  allowance_of-resets_of : (signal : Signal) → allowance_of signal ≡ limit * resets_of signal
  allowance_of-resets_of (timer_fired is_cancelled) = omega arith
  allowance_of-resets_of (resolved problem) = omega arith
  allowance_of-resets_of (tcp_connected problem is_named verify_problem) = omega arith
  allowance_of-resets_of (tls_done problem signing) = omega arith
  allowance_of-resets_of (websocket_done none) = omega arith
  allowance_of-resets_of (websocket_done (some problem)) = omega arith
  allowance_of-resets_of (written problem) = omega arith
  allowance_of-resets_of (received answer at) = omega arith
  allowance_of-resets_of (pinged payload) = omega arith
  allowance_of-resets_of reconnect_posted = omega arith
  allowance_of-resets_of stop_posted = omega arith

  on_timer-Spends :
      (is_cancelled : Bool) (s : Session)
      → s.attempt ≤ limit
      → Spends 0 s (on_timer config millis_text is_cancelled s)
  unfolding on_timer connect
  on_timer-Spends is_cancelled s h = (ground arith, ground arith)

  note_event-Spends :
      (event : MarketEvent) (s : Session)
      → s.attempt ≤ limit
      → Spends 0 s (note_event config millis_text lib std event s)
  unfolding note_event
  note_event-Spends (unhandled m) s h = (h, omega arith)
  note_event-Spends (error m) s h = (h, omega arith)
  note_event-Spends (ack m) s h = (h, omega arith)
  note_event-Spends (snapshot m) s h = (h, omega arith)
  note_event-Spends (delta m) s h = (h, omega arith)
  note_event-Spends (trade m) s h = (h, omega arith)

  on_message-Spends :
      (payload : Bytes) (at : LocalTimestamp) (s : Session)
      → s.attempt ≤ limit
      → Spends 0 s (on_message config millis_text lib std payload at s)
  unfolding on_message
  on_message-Spends payload at s h =
      elim (Result-cases (parse_ws_message lib std payload (convention config))) [
        | inl (e, p) ↦ rw (p, on_message) (h, omega arith)
        | inr (event, p) ↦
            let noted = note_event-Spends event _ h in
            rw (p, on_message) (noted.0, omega (arith, timers-append _ _, noted.1))
      ]

  either-Spends :
      (allowance : ℕ) (s : Session) (b : Bool) (x y : Handled)
      → Spends allowance s x
      → Spends allowance s y
      → Spends allowance s (if b then x else y)
  either-Spends allowance s true x y h k = h
  either-Spends allowance s false x y h k = k

  close_requests-timers : (s : Session) → timers (close_requests config millis_text s) ≡ 0
  close_requests-timers s = elim (Bool-cases s.has_stream) [ inl e ↦ rw e refl | inr e ↦ rw e refl ]

  again-Spends :
      (s : Session)
      → s.attempt ≤ limit
      → Spends limit s (
          after_requests
            (close_requests config millis_text s)
            (schedule_reconnect config millis_text (record s { attempt = 0 })))
  again-Spends s h =
      let later = schedule_reconnect-Spends (record s { attempt = 0 }) (omega arith) in
      (
        later.0,
        omega (
          arith,
          timers-append (close_requests config millis_text s)
              (schedule_reconnect config millis_text (record s { attempt = 0 })).1,
          close_requests-timers s,
          later.1,
        ),
      )

  on_stop-Spends : (s : Session) → s.attempt ≤ limit → Spends 0 s (on_stop config millis_text s)
  unfolding on_stop
  on_stop-Spends s h = (
    h,
    omega (arith, timers-append (close_requests config millis_text s) _, close_requests-timers s),
  )

  handle-Spends :
      (signal : Signal) (s : Session)
      → s.attempt ≤ limit
      → Spends
          (allowance_of signal)
          s
          (handle config millis_text subscribe_command lib std signal s)
  unfolding handle
  handle-Spends (timer_fired is_cancelled) s h = on_timer-Spends is_cancelled s h
  handle-Spends (resolved problem) s h =
      or_fail_at-Spends 0 (codes "resolve") problem s _ h (h, omega arith)
  handle-Spends (tcp_connected problem is_named verify_problem) s h =
      or_fail_at-Spends 0 (codes "connect") problem s _ h
        (on_connected-Spends is_named verify_problem s h)
  handle-Spends (tls_done problem none) s h =
      or_fail_at-Spends 0 (codes "tls_handshake") problem s _ h (h, omega arith)
  handle-Spends (tls_done problem (some signing)) s h =
      or_fail_at-Spends 0 (codes "tls_handshake") problem s _ h (h, omega arith)
  handle-Spends (websocket_done none) s h = (omega arith, omega arith)
  handle-Spends (websocket_done (some problem)) s h = fail-Spends (codes "ws_handshake") problem s h
  handle-Spends (written problem) s h =
      or_fail_at-Spends 0 (codes "subscribe") problem s _ h (h, omega arith)
  handle-Spends (received (failure problem) at) s h =
      either-Spends 0 s s.stopping (s, []) _ (h, omega arith)
        (fail-Spends (codes "read") problem s h)
  handle-Spends (received (ok payload) at) s h = on_message-Spends payload at s h
  handle-Spends (pinged payload) s h = (h, omega arith)
  handle-Spends reconnect_posted s h =
      either-Spends limit s s.stopping (s, []) _ (h, omega arith) (again-Spends s h)
  handle-Spends stop_posted s h = on_stop-Spends s h

  handle_all-Spends :
      (signals : List Signal) (s : Session)
      → s.attempt ≤ limit
      → Spends
          (limit * resets signals)
          s
          (handle_all config millis_text subscribe_command lib std signals s)
  handle_all-Spends [] s h = (h, omega arith)
  handle_all-Spends (signal ∷ signals) s h =
      let first = handle-Spends signal s h in
      let next = handle config millis_text subscribe_command lib std signal s in
      let later = handle_all-Spends signals next.0 first.0 in
      let appended =
        timers-append next.1
          (handle_all config millis_text subscribe_command lib std signals next.0).1 in
      (later.0, grind (arith, appended, first.1, later.1, allowance_of-resets_of signal))

  -- With a limit on the attempts that an unsigned number holds, whatever is signalled and in which
  -- order, the timer is armed for another attempt, together with the attempts counted before, at most
  -- as often as the limit, and as often again for each connection that opens and each reconnection
  -- asked for.
  pub handle_all-timers :
      (signals : List Signal) (s : Session)
      → s.attempt ≤ config.max_reconnect_attempts
      → timers (handle_all config millis_text subscribe_command lib std signals s).1 + s.attempt
        ≤ config.max_reconnect_attempts * (1 + resets signals)
  handle_all-timers signals s h =
      let all = handle_all-Spends signals s h in grind (arith, all.0, all.1)
