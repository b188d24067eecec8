-- ===== src/MarketState.antt =====
-- include/eventbook/book/market_state.hpp and src/book/market_state.cpp: a book with the statistics of
-- the feed. Counters are `uint64` and wrap around; durations are integers of microseconds.
pub mod DownTime
pub mod Counting
mod Examples
use eventbook.Prelude.{
  ℕ, ◌+◌, ◌%◌, ◌^◌, Bool, true, false, not, ◌&&◌, Option, none, some, List, [], ◌∷◌, if◌then◌else◌,
  has_value,
}
use eventbook.Prelude.Int.{ℤ, pos, ◌+ℤ◌, ◌-ℤ◌}
use eventbook.Price.{PriceRange}
use eventbook.Events.{
  MarketTicker, LocalTimestamp, BookSnapshot, BookDelta, MarketEvent, snapshot, delta, trade, ack,
  error, unhandled,
}
use eventbook.OrderBook.{
  OrderBook, BookRejection, sequence_gap, new_book, invalidate, apply_snapshot, apply_book_delta,
  is_valid, is_crossed,
}

-- `left - right` of two instants.
unfoldable pub elapsed : LocalTimestamp → LocalTimestamp → ℤ
elapsed left right = left.micros -ℤ right.micros

pub record MarketStateStats : Type 0 where
  pub snapshots : ℕ
  pub deltas : ℕ
  pub trades : ℕ
  pub subscription_acks : ℕ
  pub stream_errors : ℕ
  pub unhandled_messages : ℕ
  pub sequence_gaps : ℕ
  pub rejected_deltas : ℕ
  pub rejected_snapshots : ℕ
  pub disconnections : ℕ
  pub crossed_observations : ℕ
  pub invalid_time : ℤ

abbrev pub no_stats : MarketStateStats
no_stats = record {
  snapshots = 0;
  deltas = 0;
  trades = 0;
  subscription_acks = 0;
  stream_errors = 0;
  unhandled_messages = 0;
  sequence_gaps = 0;
  rejected_deltas = 0;
  rejected_snapshots = 0;
  disconnections = 0;
  crossed_observations = 0;
  invalid_time = pos 0;
}

-- `++counter`, and `++counter` under a condition.
abbrev pub increment : ℕ → ℕ
increment n = (n + 1) % 2 ^ 64

abbrev pub increment_if : Bool → ℕ → ℕ
increment_if b n = if b then increment n else n

pub record MarketState : Type 0 where
  pub book : OrderBook
  pub stats : MarketStateStats
  pub invalid_since : Option LocalTimestamp

unfoldable pub new_state : MarketTicker → List PriceRange → MarketState
new_state ticker grid = record {
  book = new_book ticker grid;
  stats = no_stats;
  invalid_since = none;
}

-- The two tests of `note_validity` on `invalid_since_`, by what it holds.
unfoldable pub note_interval :
    Bool → Option LocalTimestamp → LocalTimestamp → MarketState → MarketState
note_interval false none at s = record s { invalid_since = some at }
note_interval true (some since) at s = record s {
  stats = record (s.stats) { invalid_time = s.stats.invalid_time +ℤ elapsed at since };
  invalid_since = none;
}
note_interval false (some since) at s = s
note_interval true none at s = s

unfoldable pub note_crossed : MarketState → MarketState
note_crossed s = record s {
  stats = record (s.stats) {
    crossed_observations = increment_if (is_crossed s.book) s.stats.crossed_observations;
  };
}

unfoldable pub note_validity : MarketState → LocalTimestamp → MarketState
unfolding note_crossed
note_validity s at = note_crossed (note_interval (is_valid s.book) s.invalid_since at s)

abbrev pub is_gap : Option BookRejection → Bool
is_gap (some sequence_gap) = true
is_gap _ = false

-- The dispatch of `apply`, before `note_validity`.
unfoldable pub dispatch : MarketState → MarketEvent → MarketState × Option BookRejection
dispatch s (snapshot m) =
    let (b, rejection) = apply_snapshot s.book m in
    (
      record s {
        book = b;
        stats = record (s.stats) {
          snapshots = increment s.stats.snapshots;
          rejected_snapshots = increment_if (has_value rejection) s.stats.rejected_snapshots;
        };
      },
      rejection,
    )
dispatch s (delta m) =
    let (b, rejection) = apply_book_delta s.book m in
    (
      record s {
        book = b;
        stats = record (s.stats) {
          deltas = increment s.stats.deltas;
          rejected_deltas = increment_if (has_value rejection) s.stats.rejected_deltas;
          sequence_gaps = increment_if (is_gap rejection) s.stats.sequence_gaps;
        };
      },
      rejection,
    )
dispatch s (trade m) =
    (record s { stats = record (s.stats) { trades = increment s.stats.trades } }, none)
dispatch s (ack m) = (
  record s { stats = record (s.stats) { subscription_acks = increment s.stats.subscription_acks } },
  none,
)
dispatch s (error m) = (
  record s { stats = record (s.stats) { stream_errors = increment s.stats.stream_errors } },
  none,
)
dispatch s (unhandled m) = (
  record s {
    stats = record (s.stats) { unhandled_messages = increment s.stats.unhandled_messages };
  },
  none,
)

unfoldable pub apply :
    MarketState → MarketEvent → LocalTimestamp → MarketState × Option BookRejection
unfolding dispatch note_validity
apply s event observed_at =
    let (after, rejection) = dispatch s event in (note_validity after observed_at, rejection)

unfoldable pub on_disconnected : MarketState → LocalTimestamp → MarketState
unfolding note_validity
on_disconnected s observed_at =
    note_validity
      (record s {
        book = invalidate s.book;
        stats = record (s.stats) { disconnections = increment s.stats.disconnections };
      })
      observed_at

unfoldable pub close_interval : Option LocalTimestamp → LocalTimestamp → MarketState → MarketState
close_interval none at s = s
close_interval (some since) at s = record s {
  stats = record (s.stats) { invalid_time = s.stats.invalid_time +ℤ elapsed at since };
  invalid_since = none;
}

unfoldable pub finish : MarketState → LocalTimestamp → MarketState
unfolding close_interval
finish s observed_at = close_interval s.invalid_since observed_at s
