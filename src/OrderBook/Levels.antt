-- ===== src/OrderBook/Levels.antt =====
-- One side of a book: its two orders, its sizes, and what loading and updating do to them.
use eventbook.Prelude.{
  ◌≡◌, refl, ap, ◌∙◌, Bool, true, ◌&&◌, none, List, [], ◌∷◌, if◌then◌else◌, Result, ok, failure,
  arith, Bool-cases, Option-cases, inl, inr, ◌⊎◌, ◌↔◌, All,
}
use eventbook.Prelude.Int.{ℤ, pos, ◌+ℤ◌, ◌≤ℤ◌, ◌<ℤ◌, ltb_ℤ, eqb_ℤ, InRange, max_i64}
use eventbook.Price.{Price, PriceRange}
use eventbook.Price.Laws.{IsYesPrice, is_valid_yes_price_iff, OnBand, Any, is_on_price_grid_iff}
use eventbook.Quantity.{Quantity, quantity, would_go_negative, overflow, apply_delta}
use eventbook.Quantity.Laws.{IsSize, apply_delta_exact}
use eventbook.Events.{BookLevel, BookDelta}
use eventbook.OrderedMap.{StrictOrder, find, assign, erase, same_key, IsSorted, AllEntries}
use eventbook.OrderedMap.Laws.{
  find-assign, find-erase, assign-IsSorted, erase-IsSorted, assign-AllEntries, erase-AllEntries,
  find-AllEntries,
}
use eventbook.OrderBook.{
  Levels, BookRejection, quantity_would_go_negative, quantity_overflow, bid_order, ask_order,
  validate_price, check_levels, load_levels, existing_size, update_levels, is_empty,
}

abbrev pub same_price : Price → Price → Bool
same_price a b = eqb_ℤ a.units b.units

pub same_price_iff : (a b : Price) → (same_price a b ≡ true) ↔ (a ≡ b)
same_price_iff a b = ground arith

-- What the two comparators have in common.
pub record PriceOrder (lt : Price → Price → Bool) : Type 0 where
  pub order : StrictOrder lt
  pub key : (a b : Price) → same_key lt a b ≡ same_price a b

pub ask_order-PriceOrder : PriceOrder ask_order
ask_order-PriceOrder = record {
  order = record {
    irrefl = λ a. ground arith;
    trans = λ a b c h k. ground arith;
    total = λ a b h k. ground arith;
  };
  key = λ a b. ground arith;
}

pub bid_order-PriceOrder : PriceOrder bid_order
bid_order-PriceOrder = record {
  order = record {
    irrefl = λ a. ground arith;
    trans = λ a b c h k. ground arith;
    total = λ a b h k. ground arith;
  };
  key = λ a b. ground arith;
}

-- The size that rests at a price: zero where there is no level.
abbrev pub size_in : (Price → Price → Bool) → Levels → Price → ℤ
size_in lt m p = (existing_size (find lt p m)).units

-- The tick rule: a market without a published grid has none.
abbrev pub OnGrid : List PriceRange → Price → Type 0
OnGrid grid p = (is_empty grid ≡ true) ⊎ Any (OnBand p) grid

abbrev pub IsBookPrice : List PriceRange → Price → Type 0
IsBookPrice grid p = IsYesPrice p × OnGrid grid p

-- The price check passes exactly the prices within the bounds and on the grid.
pub validate_price_iff :
    (grid : List PriceRange) (p : Price) → (validate_price grid p ≡ none) ↔ IsBookPrice grid p
unfolding validate_price
validate_price_iff grid p = (
  (λ e. (
    (is_valid_yes_price_iff p).0 (ground arith),
    elim (Bool-cases (is_empty grid)) [
      | inl e₁ ↦ inl e₁
      | inr e₁ ↦ inr ((is_on_price_grid_iff p grid).0 (ground arith))
    ],
  )),
  (λ h.
      let ok = (is_valid_yes_price_iff p).1 h.0 in
      elim h.1 [
        | inl e ↦ ground arith
        | inr on ↦ ground (arith, (is_on_price_grid_iff p grid).1 on)
      ]),
)

-- What a book holds: a legal price, and a positive size that is an `int64`.
abbrev pub IsBookLevel : List PriceRange → Price → Quantity → Type 0
IsBookLevel grid p q = IsBookPrice grid p × (pos 1 ≤ℤ q.units) × IsSize q

-- The sizes that a list of published levels leaves behind, from `acc` at `p` on: the last level that
-- is not empty counts.
abbrev pub quoted : ℤ → List BookLevel → Price → ℤ
quoted acc [] p = acc
quoted acc (level ∷ levels) p =
    quoted
      (if ltb_ℤ (pos 0) level.quantity.units && same_price level.price p
        then level.quantity.units
        else acc)
      levels p

-- What passing the check says of the first level.
check_head :
    (grid : List PriceRange) (level : BookLevel) (levels : List BookLevel)
    → check_levels grid (level ∷ levels) ≡ none
    → IsBookPrice grid level.price
      × (pos 0 ≤ℤ level.quantity.units)
      × (check_levels grid levels ≡ none)
unfolding check_levels
check_head grid level levels e =
    ((validate_price_iff grid level.price).0 (ground arith), ground arith, ground arith)

-- What an update of one side answers, given the exact sum at its price: an error just where the sum
-- is no size, and otherwise levels in which the price has that size and all others are as before.
pub data UpdateResult (grid : List PriceRange) (lt : Price → Price → Bool) (m : Levels) (at : Price)
    (sum : ℤ) : Result Levels BookRejection → Type 0 where
  negative : sum <ℤ pos 0 → UpdateResult grid lt m at sum (failure quantity_would_go_negative)
  too_large : pos max_i64 <ℤ sum → UpdateResult grid lt m at sum (failure quantity_overflow)
  updated :
      (m' : Levels)
      → pos 0 ≤ℤ sum
      → sum ≤ℤ pos max_i64
      → IsSorted lt m'
      → AllEntries (IsBookLevel grid) m'
      → ((p : Price) → size_in lt m' p ≡ (if same_price at p then sum else size_in lt m p))
      → UpdateResult grid lt m at sum (ok m')

module _ (lt : Price → Price → Bool) (po : PriceOrder lt) where
  -- One round of the loop.
  abbrev load_one : BookLevel → Levels → Levels
  load_one level m =
      if ltb_ℤ (pos 0) level.quantity.units then assign lt level.price level.quantity m else m

  size_in-load_one :
      (level : BookLevel) (m : Levels) (p : Price)
      → size_in lt (load_one level m) p ≡ (
          if ltb_ℤ (pos 0) level.quantity.units && same_price level.price p
          then level.quantity.units
          else size_in lt m p)
  size_in-load_one level m p =
      ground (arith, find-assign lt po.order p level.price level.quantity m, po.key level.price p)

  -- Loading publishes the sizes that the list quotes.
  pub size_in-load_levels :
      (levels : List BookLevel) (m : Levels) (p : Price)
      → size_in lt (load_levels lt levels m) p ≡ quoted (size_in lt m p) levels p
  unfolding load_levels
  size_in-load_levels [] m p = refl
  size_in-load_levels (level ∷ levels) m p =
      size_in-load_levels levels (load_one level m) p
      ∙ ap (λ a. quoted a levels p) (size_in-load_one level m p)

  pub load_levels-IsSorted :
      (levels : List BookLevel) (m : Levels) → IsSorted lt m → IsSorted lt (load_levels lt levels m)
  unfolding load_levels
  load_levels-IsSorted [] m s = s
  load_levels-IsSorted (level ∷ levels) m s =
      load_levels-IsSorted levels (load_one level m)
        (ground (arith, assign-IsSorted lt po.order level.price level.quantity m s))

  pub load_levels-AllEntries :
      (grid : List PriceRange) (levels : List BookLevel) (m : Levels)
      → check_levels grid levels ≡ none
      → All (λ level. level.quantity.units ≤ℤ pos max_i64) levels
      → AllEntries (IsBookLevel grid) m
      → AllEntries (IsBookLevel grid) (load_levels lt levels m)
  unfolding load_levels check_levels
  load_levels-AllEntries grid [] m c r h = h
  load_levels-AllEntries grid (level ∷ levels) m c r h =
      let head = check_head grid level levels c in
      load_levels-AllEntries grid levels (load_one level m) head.2 r.1
        (elim (Bool-cases (ltb_ℤ (pos 0) level.quantity.units)) [
          | inl more ↦ rw more (
              assign-AllEntries lt po.order (IsBookLevel grid) level.price level.quantity m
                (head.0, ground arith, (ground arith, r.0)) h)
          | inr zero_size ↦ rw zero_size h
        ])

  -- The levels of a side once its size at a price is known.
  abbrev with_size : Price → ℤ → Levels → Levels
  with_size at z m = if eqb_ℤ z (pos 0) then erase lt at m else assign lt at (quantity z) m

  size_in-with_size :
      (at : Price) (z : ℤ) (m : Levels) (p : Price)
      → IsSorted lt m
      → size_in lt (with_size at z m) p ≡ (if same_price at p then z else size_in lt m p)
  size_in-with_size at z m p s = ground (
    arith,
    find-assign lt po.order p at (quantity z) m,
    find-erase lt po.order p at m s,
    po.key at p,
  )

  with_size-IsSorted :
      (at : Price) (z : ℤ) (m : Levels) → IsSorted lt m → IsSorted lt (with_size at z m)
  with_size-IsSorted at z m s =
      ground
        (arith, assign-IsSorted lt po.order at (quantity z) m s, erase-IsSorted lt po.order at m s)

  with_size-AllEntries :
      (grid : List PriceRange) (at : Price) (z : ℤ) (m : Levels)
      → IsBookPrice grid at
      → pos 0 ≤ℤ z
      → z ≤ℤ pos max_i64
      → AllEntries (IsBookLevel grid) m
      → AllEntries (IsBookLevel grid) (with_size at z m)
  with_size-AllEntries grid at z m legal lo hi h = elim (Bool-cases (eqb_ℤ z (pos 0))) [
    | inl e ↦ rw e (erase-AllEntries lt po.order (IsBookLevel grid) at m h)
    | inr e ↦ rw e (
        assign-AllEntries lt po.order (IsBookLevel grid) at (quantity z) m
          (legal, ground arith, (lo, hi)) h)
  ]

  existing-IsSize :
      (grid : List PriceRange) (m : Levels) (p : Price)
      → AllEntries (IsBookLevel grid) m
      → IsSize (existing_size (find lt p m))
  existing-IsSize grid m p h = elim (Option-cases (find lt p m)) [
    | inl e ↦ rw e (omega arith)
    | inr (q, e) ↦ rw e (find-AllEntries lt po.order (IsBookLevel grid) p m q h e).2
  ]

  -- The outcome of an update, decided by the exact sum, and the sizes after it.
  pub update_levels-UpdateResult :
      (grid : List PriceRange) (d : BookDelta) (m : Levels)
      → IsSorted lt m
      → AllEntries (IsBookLevel grid) m
      → IsBookPrice grid d.price
      → InRange 63 d.delta.units
      → UpdateResult grid lt m d.price
          (size_in lt m d.price +ℤ d.delta.units)
          (update_levels lt d m)
  unfolding update_levels
  update_levels-UpdateResult grid d m s h legal range = elim (Bool-cases (ltb_ℤ sum (pos 0))) [
    | inl below ↦ rw (exact, below, update_levels) (negative (ground arith))
    | inr nonneg ↦ elim (Bool-cases (ltb_ℤ (pos max_i64) sum)) [
      | inl above ↦ rw (exact, nonneg, above, update_levels) (too_large (ground arith))
      | inr fits ↦
          let lo : pos 0 ≤ℤ sum = ground arith in
          let hi : sum ≤ℤ pos max_i64 = ground arith in
          rw (exact, nonneg, fits, update_levels)
            (updated (with_size d.price sum m) lo hi (with_size-IsSorted d.price sum m s)
              (with_size-AllEntries grid d.price sum m legal lo hi h)
              (λ p. size_in-with_size d.price sum m p s))
    ]
  ]
    where
      sum : ℤ
      sum = size_in lt m d.price +ℤ d.delta.units

      exact : apply_delta (existing_size (find lt d.price m)) d.delta ≡ (
          if ltb_ℤ sum (pos 0)
          then failure would_go_negative
          else if ltb_ℤ (pos max_i64) sum
          then failure overflow
          else ok (quantity sum))
      exact =
          apply_delta_exact (existing_size (find lt d.price m)) d.delta
            (existing-IsSize grid m d.price h) range
