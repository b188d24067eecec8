-- ===== src/OrderBook/Invariant.antt =====
-- The well-formedness of a book, through every history of messages and disconnections.
use eventbook.Prelude.{
  ◌≡◌, refl, subst, ◌∙◌, sym, Option, none, some, List, [], ◌∷◌, Result, ok, failure, ◌>>=◌, arith,
  Bool-cases, Option-cases, inl, inr, All,
}
use eventbook.Prelude.Int.{ℤ, pos, ◌≤ℤ◌, InRange, max_i64}
use eventbook.Price.{PriceRange}
use eventbook.Events.{
  MarketTicker, SequenceNumber, SubscriptionId, same_market, BookSide, bid, ask, BookLevel,
  BookSnapshot, BookDelta,
}
use eventbook.OrderedMap.{IsSorted, AllEntries}
use eventbook.OrderBook.{
  OrderBook, BookStatus, awaiting_snapshot, valid, BookRejection, Levels, bid_order, ask_order,
  new_book, invalidate, validate_price, check_levels, check_snapshot, apply_snapshot, update_side,
  apply_change, apply_book_delta,
}
use eventbook.OrderBook.Levels.{
  IsBookPrice, IsBookLevel, validate_price_iff, bid_order-PriceOrder, ask_order-PriceOrder,
  load_levels-IsSorted, load_levels-AllEntries, UpdateResult, negative, too_large, updated,
  update_levels-UpdateResult,
}

-- A book that awaits a snapshot holds nothing; a valid one knows its sequence and subscription.
abbrev pub KnowsPosition : OrderBook → BookStatus → Type 0
KnowsPosition b awaiting_snapshot =
    (b.bids ≡ []) × (b.asks ≡ []) × (b.last_sequence ≡ none) × (b.subscription ≡ none)
KnowsPosition b valid =
    (n : SequenceNumber) × (sid : SubscriptionId) × (b.last_sequence ≡ some n)
    × (b.subscription ≡ some sid)

-- Each side is strictly ordered, best price first, and holds only legal prices with positive sizes.
pub record IsWellFormed (b : OrderBook) : Type 0 where
  pub bids_sorted : IsSorted bid_order b.bids
  pub asks_sorted : IsSorted ask_order b.asks
  pub bids_levels : AllEntries (IsBookLevel b.grid) b.bids
  pub asks_levels : AllEntries (IsBookLevel b.grid) b.asks
  pub position : KnowsPosition b b.status

-- The sizes of a message are `int64`.
abbrev pub IsWireLevel : BookLevel → Type 0
IsWireLevel level = level.quantity.units ≤ℤ pos max_i64

abbrev pub IsWireSnapshot : BookSnapshot → Type 0
IsWireSnapshot s = All IsWireLevel s.bids × All IsWireLevel s.asks

abbrev pub IsWireDelta : BookDelta → Type 0
IsWireDelta d = InRange 63 d.delta.units

pub new_book-IsWellFormed :
    (t : MarketTicker) (grid : List PriceRange) → IsWellFormed (new_book t grid)
unfolding new_book
new_book-IsWellFormed t grid = record {
  bids_sorted = tt;
  asks_sorted = tt;
  bids_levels = tt;
  asks_levels = tt;
  position = (refl, refl, refl, refl);
}

pub invalidate-IsWellFormed : (b : OrderBook) → IsWellFormed (invalidate b)
unfolding invalidate
invalidate-IsWellFormed b = record {
  bids_sorted = tt;
  asks_sorted = tt;
  bids_levels = tt;
  asks_levels = tt;
  position = (refl, refl, refl, refl);
}

check_both :
    (grid : List PriceRange) (s : BookSnapshot)
    → check_snapshot grid s ≡ none
    → (check_levels grid s.bids ≡ none) × (check_levels grid s.asks ≡ none)
unfolding check_snapshot
check_both grid s e = ground arith

pub apply_snapshot-IsWellFormed :
    (b : OrderBook) (s : BookSnapshot)
    → IsWireSnapshot s
    → IsWellFormed b
    → IsWellFormed (apply_snapshot b s).0
unfolding apply_snapshot
apply_snapshot-IsWellFormed b s wire w = elim (Bool-cases (same_market s.market_ticker b.ticker)) [
  | inr other ↦ rw other w
  | inl ours ↦ elim (Option-cases (check_snapshot b.grid s)) [
    | inr (problem, e) ↦ rw (ours, e, apply_snapshot) (invalidate-IsWellFormed b)
    | inl e ↦
        let checked = check_both b.grid s e in
        rw (ours, e, apply_snapshot)
          (record {
            bids_sorted = load_levels-IsSorted bid_order bid_order-PriceOrder s.bids [] tt;
            asks_sorted = load_levels-IsSorted ask_order ask_order-PriceOrder s.asks [] tt;
            bids_levels =
                load_levels-AllEntries bid_order bid_order-PriceOrder b.grid s.bids [] checked.0
                  wire.0 tt;
            asks_levels =
                load_levels-AllEntries ask_order ask_order-PriceOrder b.grid s.asks [] checked.1
                  wire.1 tt;
            position = (s.sequence, s.subscription, refl, refl);
          })
  ]
]

pub valid_position : (b : OrderBook) → IsWellFormed b → b.status ≡ valid → KnowsPosition b valid
valid_position b w e = subst (KnowsPosition b) e w.position

-- The end of `apply_change`, once the side has answered.
abbrev pub settle :
    OrderBook → BookDelta → Result OrderBook BookRejection → OrderBook × Option BookRejection
settle b d (failure problem) = (invalidate b, some problem)
settle b d (ok changed) = (record changed { last_sequence = some d.sequence }, none)

pub apply_change-settle :
    (b : OrderBook) (d : BookDelta)
    → validate_price b.grid d.price ≡ none
    → apply_change b d ≡ settle b d (update_side b d d.side)
unfolding apply_change
apply_change-settle b d e = ground arith

module _ (b : OrderBook) (d : BookDelta) (w : IsWellFormed b) (v : b.status ≡ valid) where
  known :
      (b' : OrderBook)
      → b'.status ≡ b.status
      → b'.subscription ≡ b.subscription
      → b'.last_sequence ≡ some d.sequence
      → KnowsPosition b' b'.status
  known b' same sub last =
      let (n, sid, e, f) = valid_position b w v in
      subst (KnowsPosition b') (sym (same ∙ v)) (d.sequence, sid, last, sub ∙ f)

  settle_bids-IsWellFormed :
      (sum : ℤ) (r : Result Levels BookRejection)
      → UpdateResult b.grid bid_order b.bids d.price sum r
      → IsWellFormed (settle b d (r >>= λ m. ok (record b { bids = m }))).0
  settle_bids-IsWellFormed sum _ (negative h) = invalidate-IsWellFormed b
  settle_bids-IsWellFormed sum _ (too_large h) = invalidate-IsWellFormed b
  settle_bids-IsWellFormed sum _ (updated m lo hi sorted levels sizes) = record {
    bids_sorted = sorted;
    asks_sorted = w.asks_sorted;
    bids_levels = levels;
    asks_levels = w.asks_levels;
    position = known (record b { bids = m; last_sequence = some d.sequence }) refl refl refl;
  }

  settle_asks-IsWellFormed :
      (sum : ℤ) (r : Result Levels BookRejection)
      → UpdateResult b.grid ask_order b.asks d.price sum r
      → IsWellFormed (settle b d (r >>= λ m. ok (record b { asks = m }))).0
  settle_asks-IsWellFormed sum _ (negative h) = invalidate-IsWellFormed b
  settle_asks-IsWellFormed sum _ (too_large h) = invalidate-IsWellFormed b
  settle_asks-IsWellFormed sum _ (updated m lo hi sorted levels sizes) = record {
    bids_sorted = w.bids_sorted;
    asks_sorted = sorted;
    bids_levels = w.bids_levels;
    asks_levels = levels;
    position = known (record b { asks = m; last_sequence = some d.sequence }) refl refl refl;
  }

  update_side-IsWellFormed :
      (side : BookSide)
      → IsBookPrice b.grid d.price
      → IsWireDelta d
      → IsWellFormed (settle b d (update_side b d side)).0
  unfolding update_side
  update_side-IsWellFormed bid legal wire = settle_bids-IsWellFormed _ _ (
      update_levels-UpdateResult bid_order bid_order-PriceOrder b.grid d b.bids w.bids_sorted
        w.bids_levels legal wire)
  update_side-IsWellFormed ask legal wire = settle_asks-IsWellFormed _ _ (
      update_levels-UpdateResult ask_order ask_order-PriceOrder b.grid d b.asks w.asks_sorted
        w.asks_levels legal wire)

  apply_change-IsWellFormed : IsWireDelta d → IsWellFormed (apply_change b d).0
  apply_change-IsWellFormed wire = elim (Option-cases (validate_price b.grid d.price)) [
    | inr (problem, e) ↦ unfold apply_change in rw (e, apply_change) (invalidate-IsWellFormed b)
    | inl e ↦
        rw (apply_change-settle b d e)
          (update_side-IsWellFormed d.side ((validate_price_iff b.grid d.price).0 e) wire)
  ]

pub apply_book_delta-IsWellFormed :
    (b : OrderBook) (d : BookDelta)
    → IsWireDelta d
    → IsWellFormed b
    → IsWellFormed (apply_book_delta b d).0
unfolding apply_book_delta
apply_book_delta-IsWellFormed b d wire w = grind (
  arith,
  invalidate-IsWellFormed b,
  λ (v : b.status ≡ valid). apply_change-IsWellFormed b d w v wire,
)

-- What reaches a book: the messages of the feed, and the loss of the connection.
pub data BookMessage : Type 0 where
  snapshot : BookSnapshot → BookMessage
  delta : BookDelta → BookMessage
  disconnected : BookMessage

abbrev pub IsWire : BookMessage → Type 0
IsWire (snapshot s) = IsWireSnapshot s
IsWire (delta d) = IsWireDelta d
IsWire disconnected = Unit

abbrev pub step : OrderBook → BookMessage → OrderBook
step b (snapshot s) = (apply_snapshot b s).0
step b (delta d) = (apply_book_delta b d).0
step b disconnected = invalidate b

abbrev pub run : OrderBook → List BookMessage → OrderBook
run b [] = b
run b (m ∷ ms) = run (step b m) ms

step-IsWellFormed :
    (b : OrderBook) (m : BookMessage) → IsWire m → IsWellFormed b → IsWellFormed (step b m)
step-IsWellFormed b (snapshot s) wire w = apply_snapshot-IsWellFormed b s wire w
step-IsWellFormed b (delta d) wire w = apply_book_delta-IsWellFormed b d wire w
step-IsWellFormed b disconnected wire w = invalidate-IsWellFormed b

run_from-IsWellFormed :
    (b : OrderBook) (ms : List BookMessage)
    → All IsWire ms
    → IsWellFormed b
    → IsWellFormed (run b ms)
run_from-IsWellFormed b [] wire w = w
run_from-IsWellFormed b (m ∷ ms) wire w =
    run_from-IsWellFormed (step b m) ms wire.1 (step-IsWellFormed b m wire.0 w)

-- Through every history of messages and disconnections, accepted or rejected, a new book stays well
-- formed: both sides strictly ordered with the best price first, every level at a legal price with a
-- positive size that fits `int64`, nothing held while a snapshot is awaited, and the sequence number
-- and subscription known whenever the book is valid.
pub run-IsWellFormed :
    (t : MarketTicker) (grid : List PriceRange) (ms : List BookMessage)
    → All IsWire ms
    → IsWellFormed (run (new_book t grid) ms)
run-IsWellFormed t grid ms wire = run_from-IsWellFormed _ ms wire (new_book-IsWellFormed t grid)
