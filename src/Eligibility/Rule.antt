-- ===== src/Eligibility/Rule.antt =====
-- `check_eligibility` against the inclusion rule it states.
use eventbook.Prelude.{
  ◌≡◌, ◌≢◌, ◌↔◌, ◌∙◌, sym, refl, true, false, Option, none, some, List, [], ◌∷◌, Bool-cases, inl,
  inr, arith, bytes_eq_iff, codes,
}
use eventbook.Prelude.Int.{◌≤ℤ◌, ◌<ℤ◌, ◌-ℤ◌}
use eventbook.Price.{PriceRange}
use eventbook.Events.{ExchangeTimestamp}
use eventbook.Time.{scale_ℤ, micros_per_second}
use eventbook.Market.{Market, MarketStatus, unknown, is_multivariate}
use eventbook.Eligibility.{
  IneligibilityReason, EligibilityCriteria, is_structural, is_unknown, other_status, check_band,
  check_bands, check_overlaps, validate_price_grid, check_selection, check_eligibility,
}
use eventbook.Eligibility.Grid.{IsGrid, validate_price_grid_iff}

-- What the software can represent: a binary market with a known status and a price grid.
pub record IsRepresentable (m : Market) : Type 0 where
  pub one_proposition : is_multivariate m ≡ false
  pub binary : m.market_type ≡ codes "binary"
  pub status_known : m.status ≢ unknown
  pub grid : IsGrid m.price_ranges

abbrev pub Requested : Option MarketStatus → MarketStatus → Type 0
Requested none status = Unit
Requested (some required) status = status ≡ required

-- What is chosen for the study.
pub record IsSelected (m : Market) (c : EligibilityCriteria) (as_of : ExchangeTimestamp)
    : Type 0 where
  pub requested : Requested c.required_status m.status
  pub still_open : as_of.micros <ℤ m.close_time.micros
  pub long_enough :
      scale_ℤ micros_per_second c.minimum_time_to_close ≤ℤ m.close_time.micros -ℤ as_of.micros
  pub traded : c.minimum_open_interest.units ≤ℤ m.open_interest.units

other_status_iff :
    (required : Option MarketStatus) (status : MarketStatus)
    → (other_status required status ≡ false) ↔ Requested required status
other_status_iff none status = (λ e. tt, λ h. refl)
other_status_iff (some required) status = ground arith

is_unknown_iff : (status : MarketStatus) → (is_unknown status ≡ false) ↔ (status ≢ unknown)
is_unknown_iff status = ground arith

module _ (m : Market) (c : EligibilityCriteria) (as_of : ExchangeTimestamp) where
  check_selection_iff : (check_selection m c as_of ≡ none) ↔ IsSelected m c as_of
  unfolding check_selection
  check_selection_iff = (
    (λ e. record {
      requested = (other_status_iff c.required_status m.status).0 (ground arith);
      still_open = ground arith;
      long_enough = ground arith;
      traded = ground arith;
    }),
    (λ s.
        let matches = (other_status_iff c.required_status m.status).1 s.requested in
        rw matches (ground (arith, s.still_open, s.long_enough, s.traded))),
  )

  check_representable : IsRepresentable m → check_eligibility m c as_of ≡ check_selection m c as_of
  unfolding check_eligibility
  check_representable r =
      rw
        (
          r.one_proposition,
          (bytes_eq_iff m.market_type (codes "binary")).1 r.binary,
          (is_unknown_iff m.status).1 r.status_known,
          (validate_price_grid_iff m.price_ranges).1 r.grid,
          check_eligibility,
        )
        refl

  -- A market passes exactly when it can be represented (one proposition, of binary type, in a known
  -- status, with a price grid) and is selected: in the status asked for, if any, not closed at the
  -- instant, open for at least the time asked for, and with the open interest asked for.
  pub check_eligibility_iff :
      (check_eligibility m c as_of ≡ none) ↔ (IsRepresentable m × IsSelected m c as_of)
  unfolding check_eligibility
  check_eligibility_iff = (
    (λ e. (
      record {
        one_proposition = ground arith;
        binary = (bytes_eq_iff m.market_type (codes "binary")).0 (ground arith);
        status_known = (is_unknown_iff m.status).0 (ground arith);
        grid = (validate_price_grid_iff m.price_ranges).0 (ground arith);
      },
      check_selection_iff.0 (ground arith),
    )),
    (λ (r, s). check_representable r ∙ check_selection_iff.1 s),
  )

check_band-is_structural :
    (band : PriceRange) (r : IneligibilityReason)
    → check_band band ≡ some r
    → is_structural r ≡ true
unfolding check_band is_structural
check_band-is_structural band r e = ground arith

check_bands-is_structural :
    (bands : List PriceRange) (r : IneligibilityReason)
    → check_bands bands ≡ some r
    → is_structural r ≡ true
unfolding check_bands
check_bands-is_structural [] r e = cc
check_bands-is_structural (band ∷ bands) r e =
    ground (arith, check_band-is_structural band r, check_bands-is_structural bands r)

check_overlaps-is_structural :
    (bands : List PriceRange) (r : IneligibilityReason)
    → check_overlaps bands ≡ some r
    → is_structural r ≡ true
unfolding check_overlaps is_structural
check_overlaps-is_structural [] r e = cc
check_overlaps-is_structural (band ∷ bands) r e =
    ground (arith, check_overlaps-is_structural bands r)

grid-is_structural :
    (ranges : List PriceRange) (r : IneligibilityReason)
    → validate_price_grid ranges ≡ some r
    → is_structural r ≡ true
unfolding validate_price_grid is_structural
grid-is_structural [] r e = ground arith
grid-is_structural (band ∷ bands) r e = ground (
  arith,
  check_bands-is_structural (band ∷ bands) r,
  check_overlaps-is_structural (band ∷ bands) r,
)

selection-is_structural :
    (m : Market) (c : EligibilityCriteria) (as_of : ExchangeTimestamp) (r : IneligibilityReason)
    → check_selection m c as_of ≡ some r
    → is_structural r ≡ false
unfolding check_selection is_structural
selection-is_structural m c as_of r e = ground arith

-- A refusal is structural exactly when the market cannot be represented, whatever the criteria and
-- the instant are; the structural checks come first.
pub check_eligibility-is_structural :
    (m : Market) (c : EligibilityCriteria) (as_of : ExchangeTimestamp) (r : IneligibilityReason)
    → check_eligibility m c as_of ≡ some r
    → (is_structural r ≡ true) ↔ (¬ IsRepresentable m)
unfolding check_eligibility is_structural
check_eligibility-is_structural m c as_of r e = (
  (λ h rep.
      cc (h, selection-is_structural m c as_of r (sym (check_representable m c as_of rep) ∙ e))),
  (λ h. elim (Bool-cases (is_structural r)) [
    | inl holds ↦ holds
    | inr fails ↦ absurd (
        h (record {
          one_proposition = ground arith;
          binary = (bytes_eq_iff m.market_type (codes "binary")).0 (ground arith);
          status_known = (is_unknown_iff m.status).0 (ground arith);
          grid =
              (validate_price_grid_iff m.price_ranges).0
                (ground (arith, grid-is_structural m.price_ranges r));
        }))
  ]),
)
