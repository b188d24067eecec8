-- ===== src/MarketState/DownTime.antt =====
-- How long the book was not valid.
use mathlib.Core.Path.{ap₂}
use eventbook.Prelude.{
  ◌≡◌, refl, subst, ap, ◌∙◌, sym, Bool, true, false, not, Option, none, some, List, [], ◌∷◌,
  if◌then◌else◌, has_value,
}
use eventbook.Prelude.Int.{ℤ, pos, ◌+ℤ◌, int_laws}
use eventbook.Price.{PriceRange}
use eventbook.Events.{
  MarketTicker, LocalTimestamp, MarketEvent, snapshot, delta, trade, ack, error, unhandled,
}
use eventbook.OrderBook.{
  OrderBook, is_valid, invalidate, apply_snapshot, apply_book_delta, new_book,
}
use eventbook.MarketState.{
  MarketState, new_state, elapsed, note_interval, note_validity, dispatch, apply, on_disconnected,
  close_interval, finish, increment,
}

-- What a market observes: an event or the loss of the connection, each at an instant.
pub data Observation : Type 0 where
  received : MarketEvent → LocalTimestamp → Observation
  disconnected : LocalTimestamp → Observation

abbrev pub time_of : Observation → LocalTimestamp
time_of (received event at) = at
time_of (disconnected at) = at

abbrev pub observe : MarketState → Observation → MarketState
observe s (received event at) = (apply s event at).0
observe s (disconnected at) = on_disconnected s at

abbrev pub observe_all : MarketState → List Observation → MarketState
observe_all s [] = s
observe_all s (o ∷ os) = observe_all (observe s o) os

-- The book alone, under the same observations.
abbrev pub book_after : OrderBook → Observation → OrderBook
book_after b (received (snapshot m) at) = (apply_snapshot b m).0
book_after b (received (delta m) at) = (apply_book_delta b m).0
book_after b (received (trade m) at) = b
book_after b (received (ack m) at) = b
book_after b (received (error m) at) = b
book_after b (received (unhandled m) at) = b
book_after b (disconnected at) = invalidate b

-- The time from `t` to `end` during which the book was not valid, observation by observation.
abbrev pub down_time : OrderBook → LocalTimestamp → List Observation → LocalTimestamp → ℤ
down_time b t [] end = if is_valid b then pos 0 else elapsed end t
down_time b t (o ∷ os) end =
    (if is_valid b then pos 0 else elapsed (time_of o) t)
    +ℤ down_time (book_after b o) (time_of o) os end

-- The statistics keep a start of an interval exactly while the book is not valid.
abbrev Tracks : MarketState → Type 0
Tracks s = has_value s.invalid_since ≡ not (is_valid s.book)

-- What the open interval has run up to `t`.
abbrev pending : Option LocalTimestamp → LocalTimestamp → ℤ
pending none t = pos 0
pending (some since) t = elapsed t since

abbrev accrued : MarketState → LocalTimestamp → ℤ
accrued s t = s.stats.invalid_time +ℤ pending s.invalid_since t

elapsed_self : (t : LocalTimestamp) → elapsed t t ≡ pos 0
unfolding elapsed
elapsed_self t = omega int_laws

elapsed_split : (a b c : LocalTimestamp) → elapsed a c ≡ elapsed a b +ℤ elapsed b c
unfolding elapsed
elapsed_split a b c = omega int_laws

add_zero : (x : ℤ) → x +ℤ pos 0 ≡ x
add_zero x = omega int_laws

zero_add : (x : ℤ) → pos 0 +ℤ x ≡ x
zero_add x = omega int_laws

add_comm : (x y : ℤ) → x +ℤ y ≡ y +ℤ x
add_comm x y = omega int_laws

add_assoc : (x y z : ℤ) → x +ℤ y +ℤ z ≡ x +ℤ (y +ℤ z)
add_assoc x y z = omega int_laws

module _ (at : LocalTimestamp) (s : MarketState) where
  note_interval-book :
      (v : Bool) (since : Option LocalTimestamp) → (note_interval v since at s).book ≡ s.book
  unfolding note_interval
  note_interval-book true none = refl
  note_interval-book true (some t) = refl
  note_interval-book false none = refl
  note_interval-book false (some t) = refl

  note_interval-since :
      (v : Bool) (since : Option LocalTimestamp)
      → s.invalid_since ≡ since
      → has_value (note_interval v since at s).invalid_since ≡ not v
  unfolding note_interval
  note_interval-since true none e = ap has_value e
  note_interval-since true (some t) e = refl
  note_interval-since false none e = refl
  note_interval-since false (some t) e = ap has_value e

  note_interval-accrued :
      (v : Bool) (since : Option LocalTimestamp)
      → s.invalid_since ≡ since
      → accrued (note_interval v since at s) at ≡ s.stats.invalid_time +ℤ pending since at
  unfolding note_interval
  note_interval-accrued true none e = ap (λ w. s.stats.invalid_time +ℤ pending w at) e
  note_interval-accrued true (some t) e = add_zero _
  note_interval-accrued false none e = ap (λ w. s.stats.invalid_time +ℤ w) (elapsed_self at)
  note_interval-accrued false (some t) e = ap (λ w. s.stats.invalid_time +ℤ pending w at) e

-- The state that `note_validity` is called on.
abbrev noted : MarketState → Observation → MarketState
noted s (received event at) = (dispatch s event).0
noted s (disconnected at) = record s {
  book = invalidate s.book;
  stats = record (s.stats) { disconnections = increment s.stats.disconnections };
}

observe-noted :
    (s : MarketState) (o : Observation) → observe s o ≡ note_validity (noted s o) (time_of o)
unfolding apply on_disconnected
observe-noted s (received event at) = refl
observe-noted s (disconnected at) = refl

-- Before `note_validity` only the book and the counters have changed.
noted_parts :
    (s : MarketState) (o : Observation)
    → ((noted s o).book ≡ book_after s.book o)
      × ((noted s o).invalid_since ≡ s.invalid_since)
      × ((noted s o).stats.invalid_time ≡ s.stats.invalid_time)
unfolding dispatch
noted_parts s (received (snapshot m) at) = (refl, refl, refl)
noted_parts s (received (delta m) at) = (refl, refl, refl)
noted_parts s (received (trade m) at) = (refl, refl, refl)
noted_parts s (received (ack m) at) = (refl, refl, refl)
noted_parts s (received (error m) at) = (refl, refl, refl)
noted_parts s (received (unhandled m) at) = (refl, refl, refl)
noted_parts s (disconnected at) = (refl, refl, refl)

module _ (s : MarketState) (o : Observation) where
  pub book-observe : (observe s o).book ≡ book_after s.book o
  unfolding note_validity
  book-observe =
      ap (λ (r : MarketState). r.book) (observe-noted s o)
      ∙ note_interval-book (time_of o) (noted s o) _ _
      ∙ (noted_parts s o).0

  observe-Tracks : Tracks (observe s o)
  unfolding note_validity
  observe-Tracks = subst Tracks (sym (observe-noted s o)) (
      note_interval-since (time_of o) (noted s o) (is_valid (noted s o).book) _ refl
      ∙ ap (λ b. not (is_valid b))
          (sym (note_interval-book (time_of o) (noted s o) (is_valid (noted s o).book) _)))

  observe-accrued : accrued (observe s o) (time_of o) ≡ accrued s (time_of o)
  unfolding note_validity
  observe-accrued =
      ap (λ r. accrued r (time_of o)) (observe-noted s o)
      ∙ note_interval-accrued (time_of o) (noted s o) (is_valid (noted s o).book) _ refl
      ∙ ap₂ (λ x w. x +ℤ pending w (time_of o)) (noted_parts s o).2 (noted_parts s o).1

-- Between two observations the accrued time grows by the span if the book is not valid.
pending_later :
    (valid : Bool) (since : Option LocalTimestamp) (x : ℤ) (t later : LocalTimestamp)
    → has_value since ≡ not valid
    → x +ℤ pending since later ≡ x +ℤ pending since t +ℤ (if valid then pos 0 else elapsed later t)
pending_later true none x t later h = sym (add_zero _)
pending_later true (some since) x t later h = cc
pending_later false none x t later h = cc
pending_later false (some since) x t later h =
    ap (λ w. x +ℤ w) (elapsed_split later t since ∙ add_comm _ _) ∙ sym (add_assoc x _ _)

finish-accrued :
    (s : MarketState) (at : LocalTimestamp) → (finish s at).stats.invalid_time ≡ accrued s at
unfolding finish
finish-accrued s at = closed s.invalid_since
  where
    closed :
        (since : Option LocalTimestamp)
        → (close_interval since at s).stats.invalid_time ≡ s.stats.invalid_time +ℤ pending since at
    closed none = sym (add_zero _)
    closed (some t) = refl

invalid_time_from :
    (s : MarketState) (t : LocalTimestamp) (os : List Observation) (end : LocalTimestamp)
    → Tracks s
    → (finish (observe_all s os) end).stats.invalid_time ≡ accrued s t +ℤ down_time s.book t os end
invalid_time_from s t [] end h =
    finish-accrued s end
    ∙ pending_later (is_valid s.book) s.invalid_since s.stats.invalid_time t end h
invalid_time_from s t (o ∷ os) end h =
    invalid_time_from (observe s o) (time_of o) os end (observe-Tracks s o)
    ∙ ap₂ (λ x b. x +ℤ down_time b (time_of o) os end)
        (observe-accrued s o
          ∙ pending_later (is_valid s.book) s.invalid_since s.stats.invalid_time t (time_of o) h)
        (book-observe s o)
    ∙ add_assoc (accrued s t) _ _

-- Once a market is finished, its `invalid_time` is the sum of the spans between one observation and
-- the next, the last one ending at the finish, after which the book was not valid; nothing is
-- counted before the first observation.
pub invalid_time-down_time :
    (ticker : MarketTicker) (grid : List PriceRange) (o : Observation) (os : List Observation)
    (end : LocalTimestamp)
    → (finish (observe_all (new_state ticker grid) (o ∷ os)) end).stats.invalid_time
      ≡ down_time (book_after (new_book ticker grid) o) (time_of o) os end
invalid_time-down_time ticker grid o os end =
    invalid_time_from (observe start o) (time_of o) os end (observe-Tracks start o)
    ∙ ap₂ (λ x b. x +ℤ down_time b (time_of o) os end) started
        (book-observe start o ∙ ap (λ b. book_after b o) fresh)
    ∙ zero_add _
  where
    start : MarketState
    start = new_state ticker grid

    fresh : start.book ≡ new_book ticker grid
    fresh = unfold new_state in refl

    started : accrued (observe start o) (time_of o) ≡ pos 0
    started = observe-accrued start o ∙ (unfold new_state in add_zero (pos 0))
