-- ===== src/WsSession.antt =====
-- include/eventbook/api/ws_session.hpp and src/api/ws_session.cpp: a streaming connection that is made
-- again when it is lost. A handler takes the session's state and returns it with what it asks for, in
-- order; Boost's connection, timer and signing are those requests and the events that answer them.
-- Durations are milliseconds.
pub mod Backoff
pub mod Handlers
pub mod Life
pub mod Attempts
mod Examples
use eventbook.Prelude.{
  ℕ, zero, suc, ◌*◌, Bool, true, false, Option, List, if◌then◌else◌, Bytes, codes,
}
use eventbook.Prelude.Int.{ℤ, pos, negsuc, leb_ℤ}
use eventbook.Events.{MarketTicker}
use eventbook.Rest.{KalshiEnvironment, production, demo}

unfoldable pub websocket_host : KalshiEnvironment → Bytes
websocket_host production = codes "external-api-ws.kalshi.com"
websocket_host demo = codes "external-api-ws.demo.kalshi.co"

pub record WsSubscription : Type 0 where
  pub market_ticker : MarketTicker
  pub channels : List Bytes
  pub use_yes_price : Bool

-- The loop: the delay doubles until it reaches the cap.
unfoldable pub doubled : ℕ → ℕ → ℤ → ℕ
doubled zero delay ceiling = delay
doubled (suc attempt) delay ceiling =
    let later = doubled attempt (delay * 2) ceiling in
    if leb_ℤ ceiling (pos delay) then delay else later

abbrev pub at_most : ℤ → ℤ → ℤ
at_most ceiling delay = if leb_ℤ delay ceiling then delay else ceiling

unfoldable pub reconnect_backoff : ℕ → ℤ → ℤ → ℤ
unfolding doubled
reconnect_backoff attempt (negsuc n) ceiling = pos 0
reconnect_backoff attempt (pos zero) ceiling = pos 0
reconnect_backoff attempt (pos (suc n)) ceiling =
    at_most ceiling (pos (doubled attempt (suc n) ceiling))

pub record WsSessionConfig : Type 0 where
  pub environment : KalshiEnvironment
  pub subscription : WsSubscription
  pub initial_backoff : ℤ
  pub max_backoff : ℤ
  pub max_reconnect_attempts : ℕ

pub data WsSessionNotice : Type 0 where
  connecting connected subscribed disconnected reconnecting parse_failure stream_error_received
        gave_up stopped :
      WsSessionNotice

pub record WsSessionStats : Type 0 where
  pub connections : ℕ
  pub reconnects : ℕ
  pub messages_received : ℕ
  pub bytes_received : ℕ
  pub parse_failures : ℕ
  pub unhandled_messages : ℕ
  pub stream_errors : ℕ
