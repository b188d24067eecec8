-- ===== src/OrderBook/Contract.antt =====
-- What a rejection means for the book.
use eventbook.Prelude.{
  ◌≡◌, refl, ◌∙◌, Bool, true, Option, none, some, List, [], ◌∷◌, if◌then◌else◌, Result, ok, failure,
  ◌>>=◌, arith, Bool-cases, Option-cases, inl, inr,
}
use eventbook.Price.{PriceRange, Price}
use eventbook.Events.{BookSide, bid, ask, BookLevel, BookSnapshot, BookDelta, same_market}
use eventbook.OrderBook.{
  OrderBook, BookRejection, Levels, invalidates_book, invalidate, validate_price, check_levels,
  check_snapshot, apply_snapshot, update_levels, update_side, apply_change, apply_book_delta, valid,
  bid_order, ask_order,
}
use eventbook.OrderBook.Invariant.{settle, apply_change-settle}

validate_price-invalidates :
    (grid : List PriceRange) (p : Price) (r : BookRejection)
    → validate_price grid p ≡ some r
    → invalidates_book r ≡ true
unfolding validate_price invalidates_book
validate_price-invalidates grid p r e = ground arith

check_levels-invalidates :
    (grid : List PriceRange) (levels : List BookLevel) (r : BookRejection)
    → check_levels grid levels ≡ some r
    → invalidates_book r ≡ true
unfolding check_levels invalidates_book
check_levels-invalidates grid [] r e = cc
check_levels-invalidates grid (level ∷ levels) r e =
    ground
      (arith, validate_price-invalidates grid level.price r, check_levels-invalidates grid levels r)

check_snapshot-invalidates :
    (grid : List PriceRange) (s : BookSnapshot) (r : BookRejection)
    → check_snapshot grid s ≡ some r
    → invalidates_book r ≡ true
unfolding check_snapshot
check_snapshot-invalidates grid s r e =
    ground (arith, check_levels-invalidates grid s.bids r, check_levels-invalidates grid s.asks r)

-- What a message leaves behind, by the answer to it.
abbrev pub AfterRejection : OrderBook → OrderBook × Option BookRejection → Type 0
AfterRejection b (b', none) = b'.status ≡ valid
AfterRejection b (b', some r) = b' ≡ (if invalidates_book r then invalidate b else b)

-- A snapshot that is refused leaves the book as it was if the refusal is of a kind that does not
-- invalidate, and cleared otherwise, never half loaded; one that is accepted makes the book valid.
pub apply_snapshot-AfterRejection :
    (b : OrderBook) (s : BookSnapshot) → AfterRejection b (apply_snapshot b s)
unfolding apply_snapshot
apply_snapshot-AfterRejection b s = elim (Bool-cases (same_market s.market_ticker b.ticker)) [
  | inr other ↦ rw other (unfold invalidates_book in refl)
  | inl ours ↦ elim (Option-cases (check_snapshot b.grid s)) [
    | inr (r, e) ↦ rw (ours, e, apply_snapshot, check_snapshot-invalidates b.grid s r e)
    | inl e ↦ rw (ours, e, apply_snapshot)
  ]
]

update_levels-invalidates :
    (lt : Price → Price → Bool) (d : BookDelta) (m : Levels) (r : BookRejection)
    → update_levels lt d m ≡ failure r
    → invalidates_book r ≡ true
unfolding update_levels invalidates_book
update_levels-invalidates lt d m r e = ground arith

-- An update of one side is refused for a reason that invalidates, or leaves the status alone.
abbrev SideAnswer : OrderBook → Result OrderBook BookRejection → Type 0
SideAnswer b (failure r) = invalidates_book r ≡ true
SideAnswer b (ok b') = b'.status ≡ b.status

bind-SideAnswer :
    (b : OrderBook) (put : Levels → OrderBook) (r : Result Levels BookRejection)
    → ((e : BookRejection) → r ≡ failure e → invalidates_book e ≡ true)
    → ((m : Levels) → (put m).status ≡ b.status)
    → SideAnswer b (r >>= λ m. ok (put m))
bind-SideAnswer b put (failure e) refused same = refused e refl
bind-SideAnswer b put (ok m) refused same = same m

update_side-SideAnswer :
    (b : OrderBook) (d : BookDelta) (side : BookSide) → SideAnswer b (update_side b d side)
unfolding update_side
update_side-SideAnswer b d bid =
    bind-SideAnswer b (λ m. record b { bids = m }) _ (update_levels-invalidates bid_order d b.bids)
      (λ m. refl)
update_side-SideAnswer b d ask =
    bind-SideAnswer b (λ m. record b { asks = m }) _ (update_levels-invalidates ask_order d b.asks)
      (λ m. refl)

settle-AfterRejection :
    (b : OrderBook) (d : BookDelta) (r : Result OrderBook BookRejection)
    → b.status ≡ valid
    → SideAnswer b r
    → AfterRejection b (settle b d r)
settle-AfterRejection b d (failure e) v h = rw h
settle-AfterRejection b d (ok b') v h = h ∙ v

apply_change-AfterRejection :
    (b : OrderBook) (d : BookDelta) → b.status ≡ valid → AfterRejection b (apply_change b d)
apply_change-AfterRejection b d v = elim (Option-cases (validate_price b.grid d.price)) [
  | inr (r, e) ↦
      unfold apply_change in rw (e, apply_change, validate_price-invalidates b.grid d.price r e)
  | inl e ↦
      rw (apply_change-settle b d e)
        (settle-AfterRejection b d _ v (update_side-SideAnswer b d d.side))
]

-- A delta that is refused leaves the book as it was if the refusal is of a kind that does not
-- invalidate, and cleared otherwise; one that is accepted leaves the book valid.
pub apply_book_delta-AfterRejection :
    (b : OrderBook) (d : BookDelta) → AfterRejection b (apply_book_delta b d)
unfolding apply_book_delta invalidates_book
apply_book_delta-AfterRejection b d =
    grind (arith, λ (v : b.status ≡ valid). apply_change-AfterRejection b d v)
