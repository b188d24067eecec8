-- ===== src/OrderBook/Examples.antt =====
-- A book of one bid and one ask, and the theorems on it.
use eventbook.Prelude.{◌≡◌, ◌↔◌, refl, true, none, List, [], ◌∷◌, codes, arith}
use eventbook.Prelude.Int.{pos, negsuc, ◌≤ℤ◌, ◌-ℤ◌, ◌%ℤ◌}
use eventbook.Price.{Price, price, PriceRange, is_on_price_grid}
use eventbook.Quantity.{quantity, quantity_delta}
use eventbook.Events.{MarketTicker, bid, ask, BookSnapshot, BookDelta}
use eventbook.OrderedMap.{assign}
use eventbook.OrderBook.{
  OrderBook, bid_order, ask_order, new_book, apply_snapshot, apply_book_delta, best_bid, best_ask,
  is_crossed, load_levels, check_snapshot, check_levels, validate_price,
}
use eventbook.OrderBook.Invariant.{
  snapshot, delta, disconnected, IsWellFormed, IsWireSnapshot, IsWireDelta, run, run-IsWellFormed,
}
use eventbook.OrderBook.Contract.{
  AfterRejection, apply_snapshot-AfterRejection, apply_book_delta-AfterRejection,
}
use eventbook.OrderBook.Refinement.{
  view, observe, snapshot_spec, delta_spec, size_at, apply_snapshot-snapshot_spec,
  apply_book_delta-delta_spec,
}
use eventbook.OrderBook.Derived.{IsTop, best_prices-IsTop, is_crossed_iff}
use eventbook.OrderBook.DigestText.{fnv1a, book_text}
use eventbook.OrderBook.Digest.{state_hash, state_hash-view}

abbrev pub ticker : MarketTicker
ticker = record { value = codes "FED-26" }

abbrev pub cents : List PriceRange
cents =
    record { start = price (pos 0); end = price (pos 10_000); step = record { units = pos 100 } }
    ∷ []

abbrev pub first_snapshot : BookSnapshot
first_snapshot = record {
  market_ticker = ticker;
  subscription = record { value = pos 7 };
  sequence = record { value = 1 };
  bids =
      record { price = price (pos 4200); quantity = quantity (pos 500) }
      ∷ record { price = price (pos 4300); quantity = quantity (pos 200) }
      ∷ [];
  asks = record { price = price (pos 4500); quantity = quantity (pos 300) } ∷ [];
}

-- The same levels in another order.
abbrev pub second_snapshot : BookSnapshot
second_snapshot = record first_snapshot {
  bids =
      record { price = price (pos 4300); quantity = quantity (pos 200) }
      ∷ record { price = price (pos 4200); quantity = quantity (pos 500) }
      ∷ [];
}

abbrev pub bid_delta : BookDelta
bid_delta = record {
  market_ticker = ticker;
  subscription = record { value = pos 7 };
  sequence = record { value = 2 };
  side = bid;
  price = price (pos 4200);
  delta = quantity_delta (negsuc 199);
  exchange_time = none;
}

first_snapshot-IsWire : IsWireSnapshot first_snapshot
first_snapshot-IsWire = ((omega arith, (omega arith, tt)), (omega arith, tt))

bid_delta-IsWire : IsWireDelta bid_delta
bid_delta-IsWire = (omega arith, omega arith)

abbrev live : OrderBook
live = run (new_book ticker cents) (snapshot first_snapshot ∷ [])

abbrev other_live : OrderBook
other_live = run (new_book ticker cents) (snapshot second_snapshot ∷ [])

live-IsWellFormed : IsWellFormed live
live-IsWellFormed =
    run-IsWellFormed ticker cents (snapshot first_snapshot ∷ []) (first_snapshot-IsWire, tt)

other_live-IsWellFormed : IsWellFormed other_live
other_live-IsWellFormed =
    run-IsWellFormed ticker cents (snapshot second_snapshot ∷ [])
      (((omega arith, (omega arith, tt)), (omega arith, tt)), tt)

run-IsWellFormed_example : IsWellFormed (
    run
      (new_book ticker cents)
      (snapshot first_snapshot ∷ delta bid_delta ∷ disconnected ∷ delta bid_delta ∷ []))
run-IsWellFormed_example =
    run-IsWellFormed ticker cents
      (snapshot first_snapshot ∷ delta bid_delta ∷ disconnected ∷ delta bid_delta ∷ [])
      (first_snapshot-IsWire, (bid_delta-IsWire, (tt, (bid_delta-IsWire, tt))))

apply_snapshot-snapshot_spec_example :
    observe (apply_snapshot (new_book ticker cents) first_snapshot)
    ≡ snapshot_spec
        (new_book ticker cents).ticker
        (new_book ticker cents).grid
        (view (new_book ticker cents))
        first_snapshot
apply_snapshot-snapshot_spec_example =
    apply_snapshot-snapshot_spec (new_book ticker cents) first_snapshot

apply_book_delta-delta_spec_example :
    observe (apply_book_delta live bid_delta)
    ≡ delta_spec live.ticker live.grid (view live) bid_delta
apply_book_delta-delta_spec_example =
    apply_book_delta-delta_spec live bid_delta live-IsWellFormed bid_delta-IsWire

apply_snapshot-AfterRejection_example : AfterRejection live (apply_snapshot live first_snapshot)
apply_snapshot-AfterRejection_example = apply_snapshot-AfterRejection live first_snapshot

apply_book_delta-AfterRejection_example : AfterRejection live (apply_book_delta live bid_delta)
apply_book_delta-AfterRejection_example = apply_book_delta-AfterRejection live bid_delta

best_prices-IsTop_example :
    IsTop live bid bid_order (best_bid live) × IsTop live ask ask_order (best_ask live)
best_prices-IsTop_example = best_prices-IsTop live live-IsWellFormed

is_crossed_iff_example : (is_crossed live ≡ true) ↔ (
    (p : Price) × (q : Price) × (pos 1 ≤ℤ size_at live bid p)
    × (pos 1 ≤ℤ size_at live ask q)
    × (q.units ≤ℤ p.units))
is_crossed_iff_example = is_crossed_iff live live-IsWellFormed

same_view : view live ≡ view other_live
unfolding new_book apply_snapshot load_levels check_snapshot assign check_levels validate_price
    is_on_price_grid ◌-ℤ◌ ◌%ℤ◌
same_view = refl

same_ticker : live.ticker ≡ other_live.ticker
unfolding new_book apply_snapshot load_levels check_snapshot assign check_levels validate_price
    is_on_price_grid ◌-ℤ◌ ◌%ℤ◌
same_ticker = refl

state_hash-view_example : state_hash live ≡ fnv1a 1_469_598_103_934_665_603 (book_text other_live)
state_hash-view_example =
    state_hash-view live other_live live-IsWellFormed other_live-IsWellFormed same_ticker same_view
