-- ===== src/WsSession/Examples.antt =====
-- A session with three attempts at most, and signals to it.
use eventbook.Prelude.{
  ◌+◌, ◌*◌, ◌^◌, ◌≤◌, ◌≡◌, true, false, some, List, [], ◌∷◌, Bytes, if◌then◌else◌, codes, arith,
}
use eventbook.Prelude.Int.{ℤ, pos, pos_part, leb_ℤ}
use eventbook.Rest.{demo}
use eventbook.Json.Tokens.{token_json}
use eventbook.WsProtocol.{StdSort}
use eventbook.WsSession.{WsSessionConfig, reconnect_backoff, at_most}
use eventbook.WsSession.Backoff.{reconnect_backoff-min}
use eventbook.WsSession.Handlers.{Session, no_session_stats}
use eventbook.WsSession.Life.{
  Signal, timer_fired, resolved, reconnect_posted, stop_posted, handle_all, IsStopped,
  handle_all-stop,
}
use eventbook.WsSession.Attempts.{timers, handle_all-timers}

abbrev three_attempts : WsSessionConfig
three_attempts = record {
  environment = demo;
  subscription = record {
    market_ticker = record { value = codes "FED" };
    channels = codes "trade" ∷ [];
    use_yes_price = true;
  };
  initial_backoff = pos 500;
  max_backoff = pos 30_000;
  max_reconnect_attempts = 3;
}

abbrev no_text : ℤ → Bytes
no_text z = []

abbrev keep_order : StdSort
keep_order = record { sort = λ lt xs. xs }

abbrev waiting : Session
waiting = record {
  stats = no_session_stats;
  trust_store_ready = true;
  stopping = false;
  attempt = 2;
  command_id = pos 0;
  has_stream = true;
}

reconnect_backoff-min_example : reconnect_backoff 7 (pos 500) (pos 30_000) ≡ (
    if leb_ℤ (pos 500) (pos 0)
    then pos 0
    else at_most (pos 30_000) (pos (pos_part (pos 500) * 2 ^ 7)))
reconnect_backoff-min_example = reconnect_backoff-min 7 (pos 500) (pos 30_000)

abbrev failures : List Signal
failures = timer_fired false ∷ resolved (some []) ∷ resolved (some []) ∷ reconnect_posted ∷ []

handle_all-stop_example : IsStopped three_attempts no_text no_text token_json keep_order (
    handle_all three_attempts no_text no_text token_json keep_order
      (stop_posted ∷ failures)
      waiting)
handle_all-stop_example =
    handle_all-stop three_attempts no_text no_text token_json keep_order failures waiting

handle_all-timers_example :
    timers ((handle_all three_attempts no_text no_text token_json keep_order failures waiting).1)
      + 2
    ≤ 3 * 2
handle_all-timers_example =
    handle_all-timers three_attempts no_text no_text token_json keep_order (omega arith)
      (omega arith) failures waiting (omega arith)
