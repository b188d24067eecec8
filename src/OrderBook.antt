-- ===== src/OrderBook.antt =====
-- include/eventbook/book/order_book.hpp and src/book/order_book.cpp: the book of one market.
--
-- A method that changes the book returns the new book and what the source returns. The two maps are
-- `OrderedMap`s under their comparators. `*last_sequence_` is read only in a valid book, where
-- `OrderBook.Invariant` shows that there is one; the default of `value_or_zero` is never read.
pub mod Levels
pub mod Invariant
pub mod Contract
pub mod Refinement
pub mod Derived
pub mod DigestText
pub mod Digest
pub mod Examples
use eventbook.Prelude.{
  ℕ, zero, suc, ◌+◌, ◌*◌, ◌%◌, ◌^◌, Bool, true, false, not, ◌&&◌, ◌||◌, Option, none, some, List,
  [], ◌∷◌, ltb, ◌==◌, if◌then◌else◌, has_value, Result, ok, failure, ◌>>=◌,
}
use eventbook.Prelude.Int.{ℤ, pos, ltb_ℤ, leb_ℤ, eqb_ℤ}
use eventbook.Price.{
  Price, PriceDelta, PriceRange, before, difference, is_valid_yes_price, is_on_price_grid,
}
use eventbook.Quantity.{
  Quantity, quantity, QuantityDelta, QuantityDeltaError, would_go_negative, overflow, apply_delta,
  total,
}
use eventbook.Events.{
  MarketTicker, SequenceNumber, SubscriptionId, same_market, BookSide, bid, ask, BookLevel,
  BookSnapshot, BookDelta,
}
use eventbook.OrderedMap.{Map, find, assign, erase}

pub data BookStatus : Type 0 where
  awaiting_snapshot valid : BookStatus

pub data BookRejection : Type 0 where
  wrong_market subscription_mismatch delta_before_snapshot sequence_gap sequence_regressed
        price_out_of_bounds price_off_grid negative_snapshot_level quantity_would_go_negative
        quantity_overflow :
      BookRejection

unfoldable pub invalidates_book : BookRejection → Bool
invalidates_book wrong_market = false
invalidates_book delta_before_snapshot = false
invalidates_book subscription_mismatch = true
invalidates_book sequence_gap = true
invalidates_book sequence_regressed = true
invalidates_book price_out_of_bounds = true
invalidates_book price_off_grid = true
invalidates_book negative_snapshot_level = true
invalidates_book quantity_would_go_negative = true
invalidates_book quantity_overflow = true

-- `std::greater<Price>` and `std::less<Price>`.
abbrev pub bid_order : Price → Price → Bool
bid_order a b = before b a

abbrev pub ask_order : Price → Price → Bool
ask_order a b = before a b

abbrev pub Levels : Type 0
Levels = Map Price Quantity

pub record OrderBook : Type 0 where
  pub ticker : MarketTicker
  pub grid : List PriceRange
  pub bids : Levels
  pub asks : Levels
  pub status : BookStatus
  pub last_sequence : Option SequenceNumber
  pub subscription : Option SubscriptionId

unfoldable pub new_book : MarketTicker → List PriceRange → OrderBook
new_book ticker grid = record {
  ticker = ticker;
  grid = grid;
  bids = [];
  asks = [];
  status = awaiting_snapshot;
  last_sequence = none;
  subscription = none;
}

abbrev pub is_empty {ℓ} : {A : Type ℓ} → List A → Bool
is_empty [] = true
is_empty (x ∷ xs) = false

unfoldable pub validate_price : List PriceRange → Price → Option BookRejection
validate_price grid p =
    if not (is_valid_yes_price p)
    then some price_out_of_bounds
    else if not (is_empty grid) && not (is_on_price_grid p grid)
    then some price_off_grid
    else none

unfoldable pub invalidate : OrderBook → OrderBook
invalidate b = record b {
  bids = [];
  asks = [];
  status = awaiting_snapshot;
  last_sequence = none;
  subscription = none;
}

-- The first problem among the levels of one side.
unfoldable pub check_levels : List PriceRange → List BookLevel → Option BookRejection
check_levels grid [] = none
check_levels grid (level ∷ levels) =
    let later = check_levels grid levels in
    elim (validate_price grid level.price) [
      | some problem ↦ some problem
      | none ↦ if ltb_ℤ level.quantity.units (pos 0) then some negative_snapshot_level else later
    ]

-- The validation loop over both sides.
unfoldable pub check_snapshot : List PriceRange → BookSnapshot → Option BookRejection
check_snapshot grid s = elim (check_levels grid s.bids) [
  | some problem ↦ some problem
  | none ↦ check_levels grid s.asks
]

-- The loop that fills one side: levels of size zero are dropped.
unfoldable pub load_levels : (Price → Price → Bool) → List BookLevel → Levels → Levels
load_levels lt [] m = m
load_levels lt (level ∷ levels) m =
    load_levels lt levels
      (if ltb_ℤ (pos 0) level.quantity.units then assign lt level.price level.quantity m else m)

unfoldable pub apply_snapshot : OrderBook → BookSnapshot → OrderBook × Option BookRejection
apply_snapshot b s =
    if not (same_market s.market_ticker b.ticker)
    then (b, some wrong_market)
    else elim (check_snapshot b.grid s) [
      | some problem ↦ (invalidate b, some problem)
      | none ↦ (
        record b {
          bids = load_levels bid_order s.bids [];
          asks = load_levels ask_order s.asks [];
          status = valid;
          last_sequence = some s.sequence;
          subscription = some s.subscription;
        },
        none,
      )
    ]

abbrev pub existing_size : Option Quantity → Quantity
existing_size none = quantity (pos 0)
existing_size (some q) = q

abbrev pub rejection_of : QuantityDeltaError → BookRejection
rejection_of would_go_negative = quantity_would_go_negative
rejection_of overflow = quantity_overflow

-- The lambda `update`, on the levels of one side.
unfoldable pub update_levels :
    (Price → Price → Bool) → BookDelta → Levels → Result Levels BookRejection
update_levels lt d levels = elim (apply_delta (existing_size (find lt d.price levels)) d.delta) [
  | failure e ↦ failure (rejection_of e)
  | ok updated ↦ ok (
      if eqb_ℤ updated.units (pos 0)
      then erase lt d.price levels
      else assign lt d.price updated levels)
]

unfoldable pub update_side : OrderBook → BookDelta → BookSide → Result OrderBook BookRejection
update_side b d bid = update_levels bid_order d b.bids >>= λ m. ok (record b { bids = m })
update_side b d ask = update_levels ask_order d b.asks >>= λ m. ok (record b { asks = m })

abbrev pub is_valid_status : BookStatus → Bool
is_valid_status awaiting_snapshot = false
is_valid_status valid = true

abbrev pub value_or_zero : Option SequenceNumber → ℕ
value_or_zero none = 0
value_or_zero (some n) = n.value

-- The sequence number that the next delta must carry, a `uint64`.
abbrev pub expected_sequence : Option SequenceNumber → ℕ
expected_sequence last = (value_or_zero last + 1) % 2 ^ 64

abbrev pub other_subscription : Option SubscriptionId → SubscriptionId → Bool
other_subscription none sid = false
other_subscription (some own) sid = not (eqb_ℤ sid.value own.value)

abbrev pub gap_or_regression : ℕ → ℕ → BookRejection
gap_or_regression expected got = if ltb expected got then sequence_gap else sequence_regressed

-- From the price check on.
unfoldable pub apply_change : OrderBook → BookDelta → OrderBook × Option BookRejection
apply_change b d = elim (validate_price b.grid d.price) [
  | some problem ↦ (invalidate b, some problem)
  | none ↦ elim (update_side b d d.side) [
    | failure problem ↦ (invalidate b, some problem)
    | ok changed ↦ (record changed { last_sequence = some d.sequence }, none)
  ]
]

unfoldable pub apply_book_delta : OrderBook → BookDelta → OrderBook × Option BookRejection
apply_book_delta b d =
    if not (same_market d.market_ticker b.ticker)
    then (b, some wrong_market)
    else if not (is_valid_status b.status)
    then (b, some delta_before_snapshot)
    else if other_subscription b.subscription d.subscription
    then (invalidate b, some subscription_mismatch)
    else if not (d.sequence.value == expected_sequence b.last_sequence)
    then (
      invalidate b,
      some (gap_or_regression (expected_sequence b.last_sequence) d.sequence.value),
    )
    else apply_change b d

abbrev pub is_valid : OrderBook → Bool
is_valid b = is_valid_status b.status

abbrev pub first_key : Levels → Option Price
first_key [] = none
first_key ((p, q) ∷ m) = some p

unfoldable pub best_bid : OrderBook → Option Price
best_bid b = if not (is_valid b) then none else first_key b.bids

unfoldable pub best_ask : OrderBook → Option Price
best_ask b = if not (is_valid b) then none else first_key b.asks

abbrev pub both {ℓ κ} : {A : Type ℓ} {B : Type κ} → (A → A → B) → Option A → Option A → Option B
both f none y = none
both f (some x) none = none
both f (some x) (some y) = some (f x y)

unfoldable pub spread : OrderBook → Option PriceDelta
spread b = both (λ bid ask. difference ask bid) (best_bid b) (best_ask b)

-- The loop of `depth`, with the number of levels still to count.
unfoldable pub sum_levels : ℕ → Levels → Quantity → Quantity
sum_levels zero m sum = sum
sum_levels (suc n) [] sum = sum
sum_levels (suc n) ((p, q) ∷ m) sum = sum_levels n m (total sum q)

abbrev pub side_of : OrderBook → BookSide → Levels
side_of b bid = b.bids
side_of b ask = b.asks

unfoldable pub depth : OrderBook → BookSide → ℕ → Quantity
depth b side levels =
    if not (is_valid b)
    then quantity (pos 0)
    else sum_levels levels (side_of b side) (quantity (pos 0))

abbrev pub size_of : Levels → ℕ
size_of [] = 0
size_of (x ∷ m) = suc (size_of m)

unfoldable pub level_count : OrderBook → BookSide → ℕ
level_count b side = if not (is_valid b) then 0 else size_of (side_of b side)

abbrev pub is_true : Option Bool → Bool
is_true none = false
is_true (some b) = b

unfoldable pub is_crossed : OrderBook → Bool
is_crossed b = is_true (both (λ bid ask. leb_ℤ ask.units bid.units) (best_bid b) (best_ask b))
