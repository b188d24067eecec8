-- ===== src/MarketState/Counting.antt =====
-- The counters of the statistics.
use eventbook.Prelude.{
  ℕ, ◌+◌, ◌%◌, ◌^◌, ◌<◌, ◌≡◌, refl, ◌∙◌, ap, Bool, true, false, Option, none, some, List, [], ◌∷◌,
  if◌then◌else◌, arith,
}
use eventbook.Price.{PriceRange}
use eventbook.Events.{MarketTicker, LocalTimestamp, snapshot, delta, trade, ack, error, unhandled}
use eventbook.OrderBook.{is_valid}
use eventbook.MarketState.{
  MarketState, MarketStateStats, new_state, note_interval, note_validity, dispatch, apply,
  on_disconnected, increment_if,
}
use eventbook.MarketState.DownTime.{Observation, received, disconnected, observe, observe_all}

abbrev pub is_snapshot : Observation → Bool
is_snapshot (received (snapshot m) at) = true
is_snapshot _ = false

abbrev pub is_delta : Observation → Bool
is_delta (received (delta m) at) = true
is_delta _ = false

abbrev pub is_trade : Observation → Bool
is_trade (received (trade m) at) = true
is_trade _ = false

abbrev pub is_ack : Observation → Bool
is_ack (received (ack m) at) = true
is_ack _ = false

abbrev pub is_error : Observation → Bool
is_error (received (error m) at) = true
is_error _ = false

abbrev pub is_unhandled : Observation → Bool
is_unhandled (received (unhandled m) at) = true
is_unhandled _ = false

abbrev pub is_disconnection : Observation → Bool
is_disconnection (disconnected at) = true
is_disconnection _ = false

abbrev pub count : (Observation → Bool) → List Observation → ℕ
count test [] = 0
count test (o ∷ os) = (if test o then 1 else 0) + count test os

-- The message counters, without what `note_validity` may change.
abbrev counters : MarketStateStats → ℕ × ℕ × ℕ × ℕ × ℕ × ℕ × ℕ
counters t = (
  t.snapshots, t.deltas, t.trades, t.subscription_acks, t.stream_errors, t.unhandled_messages,
  t.disconnections,
)

note_interval-counters :
    (v : Bool) (since : Option LocalTimestamp) (at : LocalTimestamp) (s : MarketState)
    → counters (note_interval v since at s).stats ≡ counters s.stats
unfolding note_interval
note_interval-counters true none at s = refl
note_interval-counters true (some t) at s = refl
note_interval-counters false none at s = refl
note_interval-counters false (some t) at s = refl

note_validity-counters :
    (s : MarketState) (at : LocalTimestamp) → counters (note_validity s at).stats ≡ counters s.stats
unfolding note_validity
note_validity-counters s at = note_interval-counters (is_valid s.book) s.invalid_since at s

abbrev counted : Observation → MarketStateStats → ℕ × ℕ × ℕ × ℕ × ℕ × ℕ × ℕ
counted o t = (
  increment_if (is_snapshot o) t.snapshots,
  increment_if (is_delta o) t.deltas,
  increment_if (is_trade o) t.trades,
  increment_if (is_ack o) t.subscription_acks,
  increment_if (is_error o) t.stream_errors,
  increment_if (is_unhandled o) t.unhandled_messages,
  increment_if (is_disconnection o) t.disconnections,
)

observe-counters :
    (s : MarketState) (o : Observation) → counters (observe s o).stats ≡ counted o s.stats
unfolding apply on_disconnected dispatch
observe-counters s (received (snapshot m) at) = note_validity-counters _ at
observe-counters s (received (delta m) at) = note_validity-counters _ at
observe-counters s (received (trade m) at) = note_validity-counters _ at
observe-counters s (received (ack m) at) = note_validity-counters _ at
observe-counters s (received (error m) at) = note_validity-counters _ at
observe-counters s (received (unhandled m) at) = note_validity-counters _ at
observe-counters s (disconnected at) = note_validity-counters _ at

-- A counter that goes up on some observations holds their number, modulo 2 ^ 64.
counter_count :
    (counter : MarketStateStats → ℕ) (test : Observation → Bool)
    → ((s : MarketState) (o : Observation)
        → counter (observe s o).stats ≡ increment_if (test o) (counter s.stats))
    → (s : MarketState) (os : List Observation) → counter s.stats < 2 ^ 64
    → counter (observe_all s os).stats ≡ (counter s.stats + count test os) % 2 ^ 64
counter_count counter test law s [] small = omega arith
counter_count counter test law s (o ∷ os) small =
    let now = law s o in ground (arith, counter_count counter test law (observe s o) os)

-- From a new market on, each message counter is the number of observations of its kind, modulo
-- 2 ^ 64: whether a message is accepted makes no difference to it.
pub observe_all-counts :
    (ticker : MarketTicker) (grid : List PriceRange) (os : List Observation)
    → let stats = (observe_all (new_state ticker grid) os).stats in
      (stats.snapshots ≡ count is_snapshot os % 2 ^ 64)
      × (stats.deltas ≡ count is_delta os % 2 ^ 64)
      × (stats.trades ≡ count is_trade os % 2 ^ 64)
      × (stats.subscription_acks ≡ count is_ack os % 2 ^ 64)
      × (stats.stream_errors ≡ count is_error os % 2 ^ 64)
      × (stats.unhandled_messages ≡ count is_unhandled os % 2 ^ 64)
      × (stats.disconnections ≡ count is_disconnection os % 2 ^ 64)
unfolding new_state
observe_all-counts ticker grid os = (
  total (λ t. t.snapshots) is_snapshot (λ s o. ap (λ c. c.0) (observe-counters s o)) (omega arith),
  total (λ t. t.deltas) is_delta (λ s o. ap (λ c. c.1) (observe-counters s o)) (omega arith),
  total (λ t. t.trades) is_trade (λ s o. ap (λ c. c.2) (observe-counters s o)) (omega arith),
  total (λ t. t.subscription_acks) is_ack (λ s o. ap (λ c. c.3) (observe-counters s o))
      (omega arith),
  total (λ t. t.stream_errors) is_error (λ s o. ap (λ c. c.4) (observe-counters s o)) (omega arith),
  total (λ t. t.unhandled_messages) is_unhandled (λ s o. ap (λ c. c.5) (observe-counters s o))
      (omega arith),
  total (λ t. t.disconnections) is_disconnection (λ s o. ap (λ c. c.6) (observe-counters s o))
      (omega arith),
)
  where
    start : MarketState
    start = new_state ticker grid

    total :
        (counter : MarketStateStats → ℕ) (test : Observation → Bool)
        → ((s : MarketState) (o : Observation)
            → counter (observe s o).stats ≡ increment_if (test o) (counter s.stats))
        → counter start.stats ≡ 0
        → counter (observe_all start os).stats ≡ count test os % 2 ^ 64
    total counter test law fresh =
        counter_count counter test law start os (omega (arith, fresh))
        ∙ ap (λ n. (n + count test os) % 2 ^ 64) fresh
        ∙ ap (λ n. n % 2 ^ 64) (omega arith)
