-- ===== src/OrderBook/Derived.antt =====
-- The derived quantities of a book against its sizes.
use eventbook.Prelude.{
  ◌≤◌, ◌≡◌, refl, subst, ap, sym, ◌↔◌, Bool, true, false, Option, none, some, List, [], ◌∷◌, arith,
  Bool-cases, inl, inr,
}
use eventbook.Prelude.Int.{pos, pos_part, ◌≤ℤ◌, leb_ℤ}
use eventbook.Price.{Price, PriceRange}
use eventbook.Quantity.{Quantity}
use eventbook.Events.{BookSide, bid, ask}
use eventbook.OrderedMap.{find, AllEntries}
use eventbook.OrderedMap.Extensional.{find_first}
use eventbook.OrderBook.{
  OrderBook, BookStatus, Levels, valid, awaiting_snapshot, first_key, best_bid, best_ask,
  is_crossed, is_valid_status, both, is_true, bid_order, ask_order, existing_size,
}
use eventbook.OrderBook.Levels.{
  PriceOrder, bid_order-PriceOrder, ask_order-PriceOrder, size_in, IsBookLevel,
}
use eventbook.OrderBook.Invariant.{IsWellFormed, KnowsPosition}
use eventbook.OrderBook.Refinement.{size_at}

module _ (lt : Price → Price → Bool) (po : PriceOrder lt) (grid : List PriceRange) where
  find_front :
      (j q : Price) (v : Quantity) (m : Levels) → lt q j ≡ true → find lt q ((j, v) ∷ m) ≡ none
  unfolding find
  find_front j q v m h = ground (arith, po.order.trans q j q, po.order.irrefl q)

  abbrev IsTopIn : Levels → Option Price → Type 0
  IsTopIn m none = (q : Price) → size_in lt m q ≡ pos 0
  IsTopIn m (some p) =
      (pos 1 ≤ℤ size_in lt m p) × ((q : Price) → pos 1 ≤ℤ size_in lt m q → lt q p ≡ false)

  -- The first key has a size, and no price before it has one; without a first key none has.
  first_key-IsTopIn : (m : Levels) → AllEntries (IsBookLevel grid) m → IsTopIn m (first_key m)
  first_key-IsTopIn [] h = λ q. unfold find in refl
  first_key-IsTopIn ((j, v) ∷ m) h = (
    subst (λ o. pos 1 ≤ℤ (existing_size o).units) (sym (find_first lt po.order j v m)) h.0.1,
    λ q k. elim (Bool-cases (lt q j)) [
      | inl front ↦ absurd (omega (arith, empty q front k))
      | inr e ↦ e
    ],
  )
    where
      empty : (q : Price) → lt q j ≡ true → pos 1 ≤ℤ size_in lt ((j, v) ∷ m) q → 1 ≤ 0
      empty q front k = subst (λ o. pos 1 ≤ℤ (existing_size o).units) (find_front j q v m front) k

awaiting_position :
    (b : OrderBook)
    → IsWellFormed b
    → is_valid_status b.status ≡ false
    → (b.bids ≡ []) × (b.asks ≡ [])
awaiting_position b w e = empty_sides b.status e w.position
  where
    empty_sides :
        (s : BookStatus)
        → is_valid_status s ≡ false
        → KnowsPosition b s
        → (b.bids ≡ []) × (b.asks ≡ [])
    empty_sides awaiting_snapshot e h = (h.0, h.1)
    empty_sides valid e h = cc

-- What the best price of a side means: it has a size, and no better price has one; where there is
-- none, no price has a size.
abbrev pub IsTop : OrderBook → BookSide → (Price → Price → Bool) → Option Price → Type 0
IsTop b side better none = (q : Price) → size_at b side q ≡ pos 0
IsTop b side better (some p) =
    (pos 1 ≤ℤ size_at b side p) × ((q : Price) → pos 1 ≤ℤ size_at b side q → better q p ≡ false)

-- In a well-formed book the best bid and the best ask are what they say: the highest price and the
-- lowest price with a size, or none where the side is empty, as it is while a snapshot is awaited.
pub best_prices-IsTop :
    (b : OrderBook)
    → IsWellFormed b
    → IsTop b bid bid_order (best_bid b) × IsTop b ask ask_order (best_ask b)
unfolding best_bid best_ask
best_prices-IsTop b w = elim (Bool-cases (is_valid_status b.status)) [
  | inl live ↦ rw live (
    first_key-IsTopIn bid_order bid_order-PriceOrder b.grid b.bids w.bids_levels,
    first_key-IsTopIn ask_order ask_order-PriceOrder b.grid b.asks w.asks_levels,
  )
  | inr waiting ↦
      let held = awaiting_position b w waiting in
      rw waiting ((λ q. rw held.0 (unfold find in refl)), (λ q. rw held.1 (unfold find in refl)))
]

-- A well-formed book is crossed exactly when it holds a bid at or above an ask.
pub is_crossed_iff :
    (b : OrderBook)
    → IsWellFormed b
    → (is_crossed b ≡ true) ↔ (
        (p : Price) × (q : Price) × (pos 1 ≤ℤ size_at b bid p)
        × (pos 1 ≤ℤ size_at b ask q)
        × (q.units ≤ℤ p.units))
unfolding is_crossed
is_crossed_iff b w = crossed_of (best_bid b) (best_ask b) (best_prices-IsTop b w)
  where
    Crossing : Type 0
    Crossing =
        (p : Price) × (q : Price) × (pos 1 ≤ℤ size_at b bid p)
        × (pos 1 ≤ℤ size_at b ask q)
        × (q.units ≤ℤ p.units)

    crossed_of :
        (x y : Option Price)
        → IsTop b bid bid_order x × IsTop b ask ask_order y
        → (is_true (both (λ p q. leb_ℤ q.units p.units) x y) ≡ true) ↔ Crossing
    crossed_of none y h = ((λ e. cc), (λ c. absurd (omega (arith, ap pos_part (h.0 c.0), c.2))))
    crossed_of (some p) none h =
        ((λ e. cc), (λ c. absurd (omega (arith, ap pos_part (h.1 c.1), c.3))))
    crossed_of (some p) (some q) h = (
      (λ e. (p, q, h.0.0, h.1.0, ground arith)),
      (λ c. ground (arith, h.0.1 c.0 c.2, h.1.1 c.1 c.3)),
    )
