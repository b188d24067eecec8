-- ===== src/OrderBook/Refinement.antt =====
-- An abstract book, without maps, and the theorem that the book implements it.
use mathlib.Core.Path.{fun_ext}
use eventbook.Prelude.{
  ◌≡◌, refl, sym, ap, ◌∙◌, Bool, true, false, not, ◌&&◌, Option, none, some, List, [], ◌==◌,
  if◌then◌else◌, Result, ok, ◌>>=◌, arith, Bool-cases, Option-cases, inl, inr,
}
use eventbook.Prelude.Int.{ℤ, pos, ◌+ℤ◌, ◌≤ℤ◌, ◌<ℤ◌, ltb_ℤ, max_i64}
use eventbook.Price.{PriceRange, Price}
use eventbook.Events.{
  MarketTicker, SequenceNumber, SubscriptionId, same_market, BookSide, bid, ask, BookLevel,
  BookSnapshot, BookDelta,
}
use eventbook.OrderedMap.{find}
use eventbook.OrderBook.{
  OrderBook, BookStatus, awaiting_snapshot, valid, BookRejection, wrong_market,
  delta_before_snapshot, subscription_mismatch, quantity_would_go_negative, quantity_overflow,
  Levels, bid_order, ask_order, invalidate, validate_price, check_snapshot, load_levels,
  apply_snapshot, update_side, apply_change, apply_book_delta, is_valid_status, other_subscription,
  expected_sequence, gap_or_regression, side_of,
}
use eventbook.OrderBook.Levels.{
  IsBookPrice, same_price, size_in, quoted, validate_price_iff, bid_order-PriceOrder,
  ask_order-PriceOrder, size_in-load_levels, UpdateResult, negative, too_large, updated,
  update_levels-UpdateResult,
}
use eventbook.OrderBook.Invariant.{IsWellFormed, IsWireDelta, settle, apply_change-settle}

-- What an observer sees of a book: a size for each side and price, zero where none rests.
pub record View : Type 0 where
  pub status : BookStatus
  pub last_sequence : Option SequenceNumber
  pub subscription : Option SubscriptionId
  pub size : BookSide → Price → ℤ

abbrev pub order_of : BookSide → Price → Price → Bool
order_of bid = bid_order
order_of ask = ask_order

abbrev pub size_at : OrderBook → BookSide → Price → ℤ
size_at b side = size_in (order_of side) (side_of b side)

abbrev pub view : OrderBook → View
view b = record {
  status = b.status;
  last_sequence = b.last_sequence;
  subscription = b.subscription;
  size = size_at b;
}

abbrev pub empty_view : View
empty_view = record {
  status = awaiting_snapshot;
  last_sequence = none;
  subscription = none;
  size = λ side p. pos 0;
}

abbrev pub same_side : BookSide → BookSide → Bool
same_side bid bid = true
same_side bid ask = false
same_side ask bid = false
same_side ask ask = true

abbrev pub levels_of : BookSnapshot → BookSide → List BookLevel
levels_of s bid = s.bids
levels_of s ask = s.asks

-- A snapshot replaces every size by what it quotes.
abbrev pub snapshot_spec :
    MarketTicker → List PriceRange → View → BookSnapshot → View × Option BookRejection
snapshot_spec ticker grid v s =
    if not (same_market s.market_ticker ticker)
    then (v, some wrong_market)
    else elim (check_snapshot grid s) [
      | some problem ↦ (empty_view, some problem)
      | none ↦ (
        record {
          status = valid;
          last_sequence = some s.sequence;
          subscription = some s.subscription;
          size = λ side. quoted (pos 0) (levels_of s side);
        },
        none,
      )
    ]

-- One size changes, to `sum`.
abbrev pub with_sum : View → BookDelta → BookSide → ℤ → View
with_sum v d at sum = record v {
  last_sequence = some d.sequence;
  size = λ side p. if same_side at side && same_price d.price p then sum else v.size side p;
}

abbrev pub change_spec : View → BookDelta → BookSide → ℤ → View × Option BookRejection
change_spec v d side sum =
    if ltb_ℤ sum (pos 0)
    then (empty_view, some quantity_would_go_negative)
    else if ltb_ℤ (pos max_i64) sum
    then (empty_view, some quantity_overflow)
    else (with_sum v d side sum, none)

abbrev pub legal_change_spec : List PriceRange → View → BookDelta → View × Option BookRejection
legal_change_spec grid v d = elim (validate_price grid d.price) [
  | some problem ↦ (empty_view, some problem)
  | none ↦ change_spec v d d.side (v.size d.side d.price +ℤ d.delta.units)
]

-- A delta adds to one size, in a valid book of its market and subscription, next in the sequence.
abbrev pub delta_spec :
    MarketTicker → List PriceRange → View → BookDelta → View × Option BookRejection
delta_spec ticker grid v d =
    if not (same_market d.market_ticker ticker)
    then (v, some wrong_market)
    else if not (is_valid_status v.status)
    then (v, some delta_before_snapshot)
    else if other_subscription v.subscription d.subscription
    then (empty_view, some subscription_mismatch)
    else if not (d.sequence.value == expected_sequence v.last_sequence)
    then (empty_view, some (gap_or_regression (expected_sequence v.last_sequence) d.sequence.value))
    else legal_change_spec grid v d

abbrev pub observe : OrderBook × Option BookRejection → View × Option BookRejection
observe (b, r) = (view b, r)

abbrev at_sizes : OrderBook → (BookSide → Price → ℤ) → View
at_sizes b f = record {
  status = b.status;
  last_sequence = b.last_sequence;
  subscription = b.subscription;
  size = f;
}

empty_sizes : (b : OrderBook) (side : BookSide) (p : Price) → size_at (invalidate b) side p ≡ pos 0
unfolding invalidate find
empty_sizes b bid p = refl
empty_sizes b ask p = refl

view-invalidate : (b : OrderBook) → view (invalidate b) ≡ empty_view
unfolding invalidate
view-invalidate b = ap (at_sizes (invalidate b)) (fun_ext λ side. fun_ext λ p. empty_sizes b side p)

loaded_sizes :
    (b : OrderBook) (s : BookSnapshot) (side : BookSide) (p : Price)
    → size_at
        (record b {
          bids = load_levels bid_order s.bids [];
          asks = load_levels ask_order s.asks [];
        })
        side
        p
      ≡ quoted (pos 0) (levels_of s side) p
unfolding find
loaded_sizes b s bid p = size_in-load_levels bid_order bid_order-PriceOrder s.bids [] p
loaded_sizes b s ask p = size_in-load_levels ask_order ask_order-PriceOrder s.asks [] p

abbrev loaded : BookSnapshot → (BookSide → Price → ℤ) → View × Option BookRejection
loaded s f = (
  record {
    status = valid;
    last_sequence = some s.sequence;
    subscription = some s.subscription;
    size = f;
  },
  none,
)

-- Applying a snapshot does to the observable sizes, the status and the position what the abstract
-- book says, with the same answer.
pub apply_snapshot-snapshot_spec :
    (b : OrderBook) (s : BookSnapshot)
    → observe (apply_snapshot b s) ≡ snapshot_spec b.ticker b.grid (view b) s
unfolding apply_snapshot
apply_snapshot-snapshot_spec b s = elim (Bool-cases (same_market s.market_ticker b.ticker)) [
  | inr other ↦ rw other
  | inl ours ↦ elim (Option-cases (check_snapshot b.grid s)) [
    | inr (r, e) ↦ rw (ours, e, apply_snapshot) (ap (λ v. (v, some r)) (view-invalidate b))
    | inl e ↦
        rw (ours, e, apply_snapshot)
          (ap (loaded s) (fun_ext λ side. fun_ext λ p. loaded_sizes b s side p))
  ]
]

changed_view :
    (b b' : OrderBook) (d : BookDelta) (side : BookSide) (sum : ℤ)
    → b'.status ≡ b.status
    → b'.subscription ≡ b.subscription
    → b'.last_sequence ≡ some d.sequence
    → ((s : BookSide) (p : Price)
        → size_at b' s p
          ≡ (if same_side side s && same_price d.price p then sum else size_at b s p))
    → view b' ≡ with_sum (view b) d side sum
changed_view b b' d side sum same sub last sizes = λ i. record {
  status = same i;
  last_sequence = last i;
  subscription = sub i;
  size = fun_ext (λ s. fun_ext λ p. sizes s p) i;
}

-- The three branches of the specified change.
module _ (v : View) (d : BookDelta) (side : BookSide) (sum : ℤ) where
  change_negative :
      sum <ℤ pos 0 → change_spec v d side sum ≡ (empty_view, some quantity_would_go_negative)
  change_negative h = let t : ltb_ℤ sum (pos 0) ≡ true = ground arith in rw t

  change_too_large :
      pos max_i64 <ℤ sum → change_spec v d side sum ≡ (empty_view, some quantity_overflow)
  change_too_large h =
      let t : ltb_ℤ sum (pos 0) ≡ false = ground arith in
      let u : ltb_ℤ (pos max_i64) sum ≡ true = ground arith in rw (t, u)

  change_fits :
      pos 0 ≤ℤ sum → sum ≤ℤ pos max_i64 → change_spec v d side sum ≡ (with_sum v d side sum, none)
  change_fits lo hi =
      let t : ltb_ℤ sum (pos 0) ≡ false = ground arith in
      let u : ltb_ℤ (pos max_i64) sum ≡ false = ground arith in rw (t, u)

module _ (b : OrderBook) (d : BookDelta) where
  refused : (r : BookRejection) → observe (invalidate b, some r) ≡ (empty_view, some r)
  refused r = ap (λ v. (v, some r)) (view-invalidate b)

  settle_bids :
      (sum : ℤ) (r : Result Levels BookRejection)
      → UpdateResult b.grid bid_order b.bids d.price sum r
      → observe (settle b d (r >>= λ m. ok (record b { bids = m })))
        ≡ change_spec (view b) d bid sum
  settle_bids sum _ (negative h) = refused _ ∙ sym (change_negative (view b) d bid sum h)
  settle_bids sum _ (too_large h) = refused _ ∙ sym (change_too_large (view b) d bid sum h)
  settle_bids sum _ (updated m lo hi sorted levels sizes) =
      ap (λ v. (v, none))
        (changed_view b (record b { bids = m; last_sequence = some d.sequence }) d bid sum refl refl
          refl (elim [ bid ↦ sizes | ask ↦ λ p. refl ]))
      ∙ sym (change_fits (view b) d bid sum lo hi)

  settle_asks :
      (sum : ℤ) (r : Result Levels BookRejection)
      → UpdateResult b.grid ask_order b.asks d.price sum r
      → observe (settle b d (r >>= λ m. ok (record b { asks = m })))
        ≡ change_spec (view b) d ask sum
  settle_asks sum _ (negative h) = refused _ ∙ sym (change_negative (view b) d ask sum h)
  settle_asks sum _ (too_large h) = refused _ ∙ sym (change_too_large (view b) d ask sum h)
  settle_asks sum _ (updated m lo hi sorted levels sizes) =
      ap (λ v. (v, none))
        (changed_view b (record b { asks = m; last_sequence = some d.sequence }) d ask sum refl refl
          refl (elim [ bid ↦ λ p. refl | ask ↦ sizes ]))
      ∙ sym (change_fits (view b) d ask sum lo hi)

  update_side-change_spec :
      (side : BookSide)
      → IsWellFormed b
      → IsWireDelta d
      → IsBookPrice b.grid d.price
      → observe (settle b d (update_side b d side))
        ≡ change_spec (view b) d side (size_at b side d.price +ℤ d.delta.units)
  unfolding update_side
  update_side-change_spec bid w wire legal = settle_bids _ _ (
      update_levels-UpdateResult bid_order bid_order-PriceOrder b.grid d b.bids w.bids_sorted
        w.bids_levels legal wire)
  update_side-change_spec ask w wire legal = settle_asks _ _ (
      update_levels-UpdateResult ask_order ask_order-PriceOrder b.grid d b.asks w.asks_sorted
        w.asks_levels legal wire)

  legal-change :
      (v : View)
      → validate_price b.grid d.price ≡ none
      → legal_change_spec b.grid v d
        ≡ change_spec v d d.side (v.size d.side d.price +ℤ d.delta.units)
  legal-change v e = rw (e, legal_change_spec)

  apply_change-legal_change_spec :
      IsWellFormed b
      → IsWireDelta d
      → observe (apply_change b d) ≡ legal_change_spec b.grid (view b) d
  apply_change-legal_change_spec w wire = elim (Option-cases (validate_price b.grid d.price)) [
    | inr (r, e) ↦ unfold apply_change in rw (e, apply_change, legal_change_spec) (refused r)
    | inl e ↦
        ap observe (apply_change-settle b d e)
        ∙ update_side-change_spec d.side w wire ((validate_price_iff b.grid d.price).0 e)
        ∙ sym (legal-change (view b) e)
  ]

-- Applying a delta to a well-formed book does to the observable sizes, the status and the position
-- what the abstract book says, with the same answer: a delta of another market, or before a
-- snapshot, changes nothing; one of another subscription, out of sequence, at an illegal price or
-- with a sum that is no size empties the view; any other adds its change to the one size that it
-- names and takes the next sequence number.
pub apply_book_delta-delta_spec :
    (b : OrderBook) (d : BookDelta)
    → IsWellFormed b
    → IsWireDelta d
    → observe (apply_book_delta b d) ≡ delta_spec b.ticker b.grid (view b) d
unfolding apply_book_delta
apply_book_delta-delta_spec b d w wire = elim (Bool-cases (same_market d.market_ticker b.ticker)) [
  | inr other ↦ rw other
  | inl ours ↦ elim (Bool-cases (is_valid_status b.status)) [
    | inr early ↦ rw (ours, early)
    | inl live ↦ elim (Bool-cases (other_subscription b.subscription d.subscription)) [
      | inl mismatch ↦ rw (ours, live, mismatch) (refused b d _)
      | inr matches ↦ elim (Bool-cases (d.sequence.value == expected_sequence b.last_sequence)) [
        | inr gap ↦ rw (ours, live, matches, gap) (refused b d _)
        | inl next ↦ rw (ours, live, matches, next) (apply_change-legal_change_spec b d w wire)
      ]
    ]
  ]
]
