-- ===== src/Eligibility.antt =====
-- include/eventbook/api/eligibility.hpp and src/api/eligibility.cpp: the rule that says which markets
-- are studied. A count of markets is a natural number: a vector cannot hold more than `size_t` counts.
pub mod Grid
pub mod Rule
pub mod Selection
mod Examples
use eventbook.Prelude.{
  ℕ, ◌+◌, ◌<◌, Bool, true, false, not, ◌&&◌, ◌||◌, Option, none, some, List, [], ◌∷◌, if◌then◌else◌,
  ltb, length, codes, bytes_eq, Bytes,
}
use eventbook.Prelude.Int.{ℤ, pos, ◌-ℤ◌, ◌%ℤ◌, ltb_ℤ, leb_ℤ, eqb_ℤ}
use eventbook.Price.{Price, PriceRange, before, not_after, is_valid_yes_price}
use eventbook.Quantity.{Quantity}
use eventbook.Events.{MarketTicker, EventTicker, ExchangeTimestamp, LocalTimestamp}
use eventbook.OrderedMap.{Map, find, assign}
use eventbook.Time.{scale_ℤ, micros_per_second}
use eventbook.Market.{
  Market, MarketStatus, initialized, active, closed, determined, finalized, unknown,
  is_multivariate,
}

pub data IneligibilityReason : Type 0 where
  multivariate not_binary_market unknown_status no_price_grid malformed_price_grid
        price_grid_out_of_bounds overlapping_price_bands status_not_requested already_closed
        closes_too_soon insufficient_open_interest :
      IneligibilityReason

unfoldable pub is_structural : IneligibilityReason → Bool
is_structural multivariate = true
is_structural not_binary_market = true
is_structural unknown_status = true
is_structural no_price_grid = true
is_structural malformed_price_grid = true
is_structural price_grid_out_of_bounds = true
is_structural overlapping_price_bands = true
is_structural status_not_requested = false
is_structural already_closed = false
is_structural closes_too_soon = false
is_structural insufficient_open_interest = false

pub record EligibilityCriteria : Type 0 where
  pub required_status : Option MarketStatus
  -- In seconds.
  pub minimum_time_to_close : ℤ
  pub minimum_open_interest : Quantity

-- The tests of one band.
unfoldable pub check_band : PriceRange → Option IneligibilityReason
check_band band =
    if leb_ℤ band.step.units (pos 0) || not_after band.end band.start
    then some malformed_price_grid
    else if not (is_valid_yes_price band.start) || not (is_valid_yes_price band.end)
    then some price_grid_out_of_bounds
    else if not (eqb_ℤ ((band.end.units -ℤ band.start.units) %ℤ band.step.units) (pos 0))
    then some malformed_price_grid
    else none

-- The loop over the bands.
unfoldable pub check_bands : List PriceRange → Option IneligibilityReason
check_bands [] = none
check_bands (band ∷ bands) =
    let later = check_bands bands in
    elim (check_band band) [ some reason ↦ some reason | none ↦ later ]

abbrev pub disjoint : PriceRange → PriceRange → Bool
disjoint left right = before left.end right.start || before right.end left.start

-- The inner loop: whether every later band is disjoint from `left`.
unfoldable pub disjoint_from : PriceRange → List PriceRange → Bool
disjoint_from left [] = true
disjoint_from left (right ∷ bands) =
    let later = disjoint_from left bands in if disjoint left right then later else false

-- The outer loop.
unfoldable pub check_overlaps : List PriceRange → Option IneligibilityReason
check_overlaps [] = none
check_overlaps (left ∷ bands) =
    let later = check_overlaps bands in
    if disjoint_from left bands then later else some overlapping_price_bands

unfoldable pub validate_price_grid : List PriceRange → Option IneligibilityReason
validate_price_grid [] = some no_price_grid
validate_price_grid (band ∷ bands) = elim (check_bands (band ∷ bands)) [
  | some reason ↦ some reason
  | none ↦ check_overlaps (band ∷ bands)
]

unfoldable pub assume_exchange_clock : LocalTimestamp → ExchangeTimestamp
assume_exchange_clock local = record { micros = local.micros }

abbrev pub is_unknown : MarketStatus → Bool
is_unknown initialized = false
is_unknown active = false
is_unknown closed = false
is_unknown determined = false
is_unknown finalized = false
is_unknown unknown = true

-- The position of an enumerator.
abbrev pub status_rank : MarketStatus → ℕ
status_rank initialized = 0
status_rank active = 1
status_rank closed = 2
status_rank determined = 3
status_rank finalized = 4
status_rank unknown = 5

abbrev pub other_status : Option MarketStatus → MarketStatus → Bool
other_status none status = false
other_status (some required) status =
    ltb (status_rank status) (status_rank required)
    || ltb (status_rank required) (status_rank status)

-- The checks of selection, which come last.
unfoldable pub check_selection :
    Market → EligibilityCriteria → ExchangeTimestamp → Option IneligibilityReason
check_selection market criteria as_of =
    if other_status criteria.required_status market.status
    then some status_not_requested
    else if leb_ℤ market.close_time.micros as_of.micros
    then some already_closed
    else if ltb_ℤ (market.close_time.micros -ℤ as_of.micros)
        (scale_ℤ micros_per_second criteria.minimum_time_to_close)
    then some closes_too_soon
    else if ltb_ℤ market.open_interest.units criteria.minimum_open_interest.units
    then some insufficient_open_interest
    else none

unfoldable pub check_eligibility :
    Market → EligibilityCriteria → ExchangeTimestamp → Option IneligibilityReason
check_eligibility market criteria as_of =
    if is_multivariate market
    then some multivariate
    else if not (bytes_eq market.market_type (codes "binary"))
    then some not_binary_market
    else if is_unknown market.status
    then some unknown_status
    else elim (validate_price_grid market.price_ranges) [
      | some grid_problem ↦ some grid_problem
      | none ↦ check_selection market criteria as_of
    ]

pub record MarketRejection : Type 0 where
  pub ticker : MarketTicker
  pub reason : IneligibilityReason

pub record UniverseSelection : Type 0 where
  pub eligible : List Market
  pub rejected : List MarketRejection

unfoldable pub considered : UniverseSelection → ℕ
considered s = length s.eligible + length s.rejected

-- One round of the loop of `select_universe`, on the selection of the markets behind.
abbrev pub select_one :
    Market → EligibilityCriteria → ExchangeTimestamp → UniverseSelection → UniverseSelection
select_one market criteria as_of s = elim (check_eligibility market criteria as_of) [
  | some reason ↦ record s {
    rejected = record { ticker = market.ticker; reason = reason } ∷ s.rejected;
  }
  | none ↦ record s { eligible = market ∷ s.eligible }
]

-- `push_back` in the order of the markets.
unfoldable pub select_universe :
    List Market → EligibilityCriteria → ExchangeTimestamp → UniverseSelection
select_universe [] criteria as_of = record { eligible = []; rejected = [] }
select_universe (market ∷ markets) criteria as_of =
    select_one market criteria as_of (select_universe markets criteria as_of)

-- The position of an enumerator.
abbrev pub reason_rank : IneligibilityReason → ℕ
reason_rank multivariate = 0
reason_rank not_binary_market = 1
reason_rank unknown_status = 2
reason_rank no_price_grid = 3
reason_rank malformed_price_grid = 4
reason_rank price_grid_out_of_bounds = 5
reason_rank overlapping_price_bands = 6
reason_rank status_not_requested = 7
reason_rank already_closed = 8
reason_rank closes_too_soon = 9
reason_rank insufficient_open_interest = 10

abbrev pub reason_order : IneligibilityReason → IneligibilityReason → Bool
reason_order a b = ltb (reason_rank a) (reason_rank b)

abbrev pub same_reason : IneligibilityReason → IneligibilityReason → Bool
same_reason a b = not (reason_order a b) && not (reason_order b a)

-- `std::count_if`.
unfoldable pub count_reason : IneligibilityReason → List MarketRejection → ℕ
count_reason reason [] = 0
count_reason reason (entry ∷ entries) =
    (if same_reason entry.reason reason then 1 else 0) + count_reason reason entries

unfoldable pub rejected_for : UniverseSelection → IneligibilityReason → ℕ
rejected_for s reason = count_reason reason s.rejected

abbrev pub count_or_zero : Option ℕ → ℕ
count_or_zero none = 0
count_or_zero (some n) = n

-- `++counts[key]`.
unfoldable pub count_key : {K : Type 0} → (K → K → Bool) → K → Map K ℕ → Map K ℕ
count_key lt key counts = assign lt key (count_or_zero (find lt key counts) + 1) counts

unfoldable pub breakdown_from :
    List MarketRejection → Map IneligibilityReason ℕ → Map IneligibilityReason ℕ
breakdown_from [] counts = counts
breakdown_from (entry ∷ entries) counts =
    breakdown_from entries (count_key reason_order entry.reason counts)

unfoldable pub rejection_breakdown : UniverseSelection → Map IneligibilityReason ℕ
rejection_breakdown s = breakdown_from s.rejected []

-- `operator<` of two texts: byte by byte, and a prefix comes first.
unfoldable pub text_order : Bytes → Bytes → Bool
text_order s [] = false
text_order [] (d ∷ t) = true
text_order (c ∷ s) (d ∷ t) =
    let later = text_order s t in if ltb c d then true else if ltb d c then false else later

abbrev pub event_order : EventTicker → EventTicker → Bool
event_order a b = text_order a.value b.value

unfoldable pub count_events : List Market → Map EventTicker ℕ → Map EventTicker ℕ
count_events [] counts = counts
count_events (market ∷ markets) counts =
    count_events markets (count_key event_order market.event_ticker counts)

unfoldable pub markets_by_event : List Market → Map EventTicker ℕ
markets_by_event markets = count_events markets []
