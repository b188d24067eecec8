-- ===== src/Eligibility/Examples.antt =====
-- A market under the inclusion rule.
use eventbook.Prelude.{
  ◌≡◌, ◌↔◌, ◌==◌, refl, false, none, some, List, [], ◌∷◌, if◌then◌else◌, codes, bytes_eq,
}
use eventbook.Prelude.Int.{pos, ◌-ℤ◌, ◌%ℤ◌}
use eventbook.Price.{price, PriceRange}
use eventbook.Quantity.{quantity}
use eventbook.Events.{ExchangeTimestamp}
use eventbook.OrderedMap.{find, IsSorted}
use eventbook.Market.{Market, active, is_multivariate}
use eventbook.Eligibility.{
  EligibilityCriteria, IneligibilityReason, closes_too_soon, validate_price_grid, check_eligibility,
  select_universe, considered, rejected_for, reason_order, rejection_breakdown, check_band,
  check_bands, check_overlaps, check_selection, disjoint_from,
}
use eventbook.Eligibility.Grid.{IsGrid, validate_price_grid_iff}
use eventbook.Eligibility.Rule.{IsRepresentable, IsSelected, check_eligibility_iff}
use eventbook.Eligibility.Selection.{
  passing, refused, select_universe-parts, rejection_breakdown-rejected_for,
}

abbrev cents : List PriceRange
cents =
    record { start = price (pos 0); end = price (pos 10_000); step = record { units = pos 100 } }
    ∷ []

abbrev short_market : Market
short_market = record {
  ticker = record { value = codes "FED-26" };
  event_ticker = record { value = codes "FED" };
  market_type = codes "binary";
  status = active;
  price_level_structure = codes "linear_cent";
  price_ranges = cents;
  open_time = record { micros = pos 0 };
  close_time = record { micros = pos 60_000_000 };
  expected_expiration_time = none;
  mve_collection_ticker = none;
  yes_bid = price (pos 4200);
  yes_ask = price (pos 4500);
  yes_bid_size = quantity (pos 500);
  yes_ask_size = quantity (pos 300);
  last_price = price (pos 4300);
  volume = quantity (pos 1000);
  volume_24h = quantity (pos 100);
  open_interest = quantity (pos 800);
  can_close_early = false;
}

abbrev one_hour : EligibilityCriteria
one_hour = record {
  required_status = some active;
  minimum_time_to_close = pos 3600;
  minimum_open_interest = quantity (pos 0);
}

abbrev now : ExchangeTimestamp
now = record { micros = pos 1_000_000 }

closes_in_a_minute : check_eligibility short_market one_hour now ≡ some closes_too_soon
unfolding check_eligibility is_multivariate bytes_eq validate_price_grid check_bands check_band
    check_overlaps disjoint_from check_selection ◌-ℤ◌ ◌%ℤ◌
closes_in_a_minute = refl

validate_price_grid_iff_example : (validate_price_grid cents ≡ none) ↔ IsGrid cents
validate_price_grid_iff_example = validate_price_grid_iff cents

check_eligibility_iff_example :
    (check_eligibility short_market one_hour now ≡ none)
    ↔ (IsRepresentable short_market × IsSelected short_market one_hour now)
check_eligibility_iff_example = check_eligibility_iff short_market one_hour now

select_universe-parts_example :
    ((select_universe (short_market ∷ []) one_hour now).eligible
      ≡ passing one_hour now (short_market ∷ []))
    × ((select_universe (short_market ∷ []) one_hour now).rejected
        ≡ refused one_hour now (short_market ∷ []))
    × (considered (select_universe (short_market ∷ []) one_hour now) ≡ 1)
select_universe-parts_example = select_universe-parts one_hour now (short_market ∷ [])

rejection_breakdown-rejected_for_example :
    let s = select_universe (short_market ∷ []) one_hour now in
    IsSorted reason_order (rejection_breakdown s)
    × ((r : IneligibilityReason)
        → find reason_order r (rejection_breakdown s)
          ≡ (if rejected_for s r == 0 then none else some (rejected_for s r)))
rejection_breakdown-rejected_for_example =
    rejection_breakdown-rejected_for (select_universe (short_market ∷ []) one_hour now)
