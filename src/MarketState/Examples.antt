-- ===== src/MarketState/Examples.antt =====
-- A market that goes down and comes back.
use eventbook.Prelude.{ℕ, ◌≡◌, List, [], ◌∷◌}
use eventbook.Prelude.Int.{pos}
use eventbook.Events.{LocalTimestamp, snapshot, delta}
use eventbook.OrderBook.{new_book}
use eventbook.OrderBook.Examples.{ticker, cents, first_snapshot, bid_delta}
use eventbook.MarketState.{new_state, finish}
use eventbook.MarketState.DownTime.{
  Observation, received, disconnected, time_of, observe_all, book_after, down_time,
  invalid_time-down_time,
}
use eventbook.MarketState.Counting.{observe_all-counts}

abbrev at : ℕ → LocalTimestamp
at t = record { micros = pos t }

abbrev first : Observation
first = received (delta bid_delta) (at 100)

abbrev later : List Observation
later =
    received (snapshot first_snapshot) (at 250)
    ∷ received (delta bid_delta) (at 300)
    ∷ disconnected (at 900)
    ∷ []

invalid_time-down_time_example :
    (finish (observe_all (new_state ticker cents) (first ∷ later)) (at 1000)).stats.invalid_time
    ≡ down_time (book_after (new_book ticker cents) first) (time_of first) later (at 1000)
invalid_time-down_time_example = invalid_time-down_time ticker cents first later (at 1000)

observe_all-counts_example :
    let stats = (observe_all (new_state ticker cents) (first ∷ later)).stats in
    (stats.snapshots ≡ 1)
    × (stats.deltas ≡ 2)
    × (stats.trades ≡ 0)
    × (stats.subscription_acks ≡ 0)
    × (stats.stream_errors ≡ 0)
    × (stats.unhandled_messages ≡ 0)
    × (stats.disconnections ≡ 1)
observe_all-counts_example = observe_all-counts ticker cents (first ∷ later)
