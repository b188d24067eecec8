-- ===== src/Eligibility/Selection.antt =====
-- `select_universe` and the counts of it.
use eventbook.Prelude.{
  ℕ, ◌+◌, ◌≡◌, ◌∙◌, ap, refl, true, false, none, some, List, [], ◌∷◌, length, if◌then◌else◌,
  Bool-cases, Option-cases, inl, inr, arith, ◌⊎◌, ◌==◌, has_value,
}
use eventbook.Events.{ExchangeTimestamp}
use eventbook.Market.{Market}
use eventbook.OrderedMap.{Map, StrictOrder, find, IsSorted}
use eventbook.OrderedMap.Laws.{find-assign, assign-IsSorted}
use eventbook.Eligibility.{
  IneligibilityReason, EligibilityCriteria, MarketRejection, UniverseSelection, check_eligibility,
  select_one, select_universe, considered, reason_order, reason_rank, same_reason, count_reason,
  rejected_for, count_or_zero, count_key, breakdown_from, rejection_breakdown,
}

module _ (c : EligibilityCriteria) (as_of : ExchangeTimestamp) where
  -- The markets that pass, in their order.
  abbrev pub passing : List Market → List Market
  passing [] = []
  passing (m ∷ ms) =
      let rest = passing ms in if has_value (check_eligibility m c as_of) then rest else m ∷ rest

  -- The markets that do not, each with its reason, in their order.
  abbrev pub refused : List Market → List MarketRejection
  refused [] = []
  refused (m ∷ ms) =
      let rest = refused ms in
      elim (check_eligibility m c as_of) [
        | some reason ↦ record { ticker = m.ticker; reason = reason } ∷ rest
        | none ↦ rest
      ]

  select_one-parts :
      (m : Market) (ms : List Market) (s : UniverseSelection)
      → (s.eligible ≡ passing ms) × (s.rejected ≡ refused ms)
      → ((select_one m c as_of s).eligible ≡ passing (m ∷ ms))
        × ((select_one m c as_of s).rejected ≡ refused (m ∷ ms))
        × (considered (select_one m c as_of s) ≡ considered s + 1)
  unfolding considered
  select_one-parts m ms s h = elim (Option-cases (check_eligibility m c as_of)) [
    | inl e ↦ rw (e, passing, refused, select_one) (ap (◌∷◌ m) h.0, h.1, omega arith)
    | inr (reason, e) ↦
        rw (e, passing, refused, select_one)
          (h.0, ap (◌∷◌ (record { ticker = m.ticker; reason = reason })) h.1, omega arith)
  ]

  -- Selection divides the markets: the eligible ones are those that pass and the rejected ones are the
  -- others with their reasons, both in the order of the input, and none is lost or counted twice.
  pub select_universe-parts :
      (ms : List Market)
      → ((select_universe ms c as_of).eligible ≡ passing ms)
        × ((select_universe ms c as_of).rejected ≡ refused ms)
        × (considered (select_universe ms c as_of) ≡ length ms)
  unfolding select_universe considered
  select_universe-parts [] = (refl, refl, refl)
  select_universe-parts (m ∷ ms) =
      let ih = select_universe-parts ms in
      let one = select_one-parts m ms (select_universe ms c as_of) (ih.0, ih.1) in
      (one.0, one.1, one.2 ∙ omega (arith, ih.2))

reason_order-StrictOrder : StrictOrder reason_order
reason_order-StrictOrder = record {
  irrefl = λ a. ground arith;
  trans = λ a b c h k. ground arith;
  total = λ a b h k. rank_inj a b (ground arith);
}
  where
    rank_inj : (a b : IneligibilityReason) → reason_rank a ≡ reason_rank b → a ≡ b
    rank_inj a b h = ground arith

same_reason→eq : (a b : IneligibilityReason) → same_reason a b ≡ true → a ≡ b
same_reason→eq a b h = reason_order-StrictOrder.total a b (ground arith) (ground arith)

find-count_key :
    (r k : IneligibilityReason) (counts : Map IneligibilityReason ℕ)
    → find reason_order r (count_key reason_order k counts) ≡ (
        if same_reason k r
        then some (count_or_zero (find reason_order r counts) + 1)
        else find reason_order r counts)
unfolding count_key
find-count_key r k counts =
    find-assign reason_order reason_order-StrictOrder r k _ counts
    ∙ at_key (Bool-cases (same_reason k r))
  where
    at_key :
        (same_reason k r ≡ true) ⊎ (same_reason k r ≡ false)
        → (if same_reason k r
            then some (count_or_zero (find reason_order k counts) + 1)
            else find reason_order r counts)
          ≡ (if same_reason k r
              then some (count_or_zero (find reason_order r counts) + 1)
              else find reason_order r counts)
    at_key (inl same) =
        rw same (
          ap (λ i. some (count_or_zero (find reason_order i counts) + 1)) (same_reason→eq k r same))
    at_key (inr other) = rw other refl

-- Counting on in any map: every key has what it had and the number of its entries.
find-breakdown_from :
    (r : IneligibilityReason) (entries : List MarketRejection) (counts : Map IneligibilityReason ℕ)
    → find reason_order r (breakdown_from entries counts) ≡ (
        if count_reason r entries == 0
        then find reason_order r counts
        else some (count_or_zero (find reason_order r counts) + count_reason r entries))
unfolding breakdown_from count_reason
find-breakdown_from r [] counts = refl
find-breakdown_from r (entry ∷ entries) counts =
    find-breakdown_from r entries (count_key reason_order entry.reason counts)
    ∙ rw (find-count_key r entry.reason counts) (ground arith)

breakdown_from-IsSorted :
    (entries : List MarketRejection) (counts : Map IneligibilityReason ℕ)
    → IsSorted reason_order counts
    → IsSorted reason_order (breakdown_from entries counts)
unfolding breakdown_from count_key
breakdown_from-IsSorted [] counts s = s
breakdown_from-IsSorted (entry ∷ entries) counts s =
    breakdown_from-IsSorted entries (count_key reason_order entry.reason counts)
      (assign-IsSorted reason_order reason_order-StrictOrder entry.reason _ counts s)

-- The breakdown lists each reason at most once, in the order of the enumerators, with the number of
-- markets rejected for it, and leaves out just the reasons for which none was.
pub rejection_breakdown-rejected_for :
    (s : UniverseSelection)
    → IsSorted reason_order (rejection_breakdown s)
      × ((r : IneligibilityReason)
          → find reason_order r (rejection_breakdown s)
            ≡ (if rejected_for s r == 0 then none else some (rejected_for s r)))
unfolding rejection_breakdown rejected_for
rejection_breakdown-rejected_for s = (
  breakdown_from-IsSorted s.rejected [] tt,
  λ r.
      unfold find in
      (find-breakdown_from r s.rejected []
        ∙ ap (λ n. if count_reason r s.rejected == 0 then none else some n) (omega arith)),
)
