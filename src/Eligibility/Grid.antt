-- ===== src/Eligibility/Grid.antt =====
-- `validate_price_grid` against a description of a price grid.
use eventbook.Prelude.{
  ◌≡◌, ◌≢◌, ◌↔◌, refl, true, false, none, List, [], ◌∷◌, All, Bool-cases, Option-cases, inl, inr,
  arith,
}
use eventbook.Prelude.Int.{◌≤ℤ◌, ◌<ℤ◌}
use eventbook.Price.{Price, PriceRange}
use eventbook.Price.Laws.{IsYesPrice, OnBand, hits-OnBand, hits, skips}
use eventbook.Eligibility.{
  check_band, check_bands, disjoint, disjoint_from, check_overlaps, validate_price_grid,
}

-- A band that makes sense: a positive step, two different settlement prices in order, and an end that
-- is a level of the band.
pub record IsBand (band : PriceRange) : Type 0 where
  pub ordered : band.start.units <ℤ band.end.units
  pub start_legal : IsYesPrice band.start
  pub end_legal : IsYesPrice band.end
  pub end_is_level : OnBand band.end band

abbrev pub Within : Price → PriceRange → Type 0
Within p band = (band.start.units ≤ℤ p.units) × (p.units ≤ℤ band.end.units)

abbrev pub Apart : PriceRange → PriceRange → Type 0
Apart left right = (p : Price) → Within p left → ¬ Within p right

abbrev pub PairwiseApart : List PriceRange → Type 0
PairwiseApart [] = Unit
PairwiseApart (band ∷ bands) = All (Apart band) bands × PairwiseApart bands

-- At least one band, every band makes sense, and no price lies in two of them.
abbrev pub IsGrid : List PriceRange → Type 0
IsGrid ranges = (ranges ≢ []) × All IsBand ranges × PairwiseApart ranges

check_band_iff : (band : PriceRange) → (check_band band ≡ none) ↔ IsBand band
unfolding check_band
check_band_iff band = (sound, complete)
  where
    sound : check_band band ≡ none → IsBand band
    sound e = record {
      ordered = ground arith;
      start_legal = ground arith;
      end_legal = ground arith;
      end_is_level = (hits-OnBand band.end band (ground arith)).0 (ground arith);
    }

    complete : IsBand band → check_band band ≡ none
    complete b =
        let fits : skips band.end band ≡ false =
          ground (arith, b.ordered, b.end_is_level.step_pos) in
        let lands : hits band.end band ≡ true = (hits-OnBand band.end band fits).1 b.end_is_level in
        rw lands (ground (arith, b.ordered, b.start_legal, b.end_legal, b.end_is_level.step_pos))

check_bands_iff : (bands : List PriceRange) → (check_bands bands ≡ none) ↔ All IsBand bands
unfolding check_bands
check_bands_iff [] = (λ e. tt, λ h. refl)
check_bands_iff (band ∷ bands) = ground (arith, check_band_iff band, check_bands_iff bands)

disjoint_iff :
    (left right : PriceRange)
    → IsBand left
    → IsBand right
    → (disjoint left right ≡ true) ↔ Apart left right
disjoint_iff left right hl hr = (
  (λ e p h k. ground arith),
  (λ apart. ground (arith, apart left.start, apart right.start, hl.ordered, hr.ordered)),
)

disjoint_from_iff :
    (left : PriceRange) (bands : List PriceRange)
    → IsBand left
    → All IsBand bands
    → (disjoint_from left bands ≡ true) ↔ All (Apart left) bands
unfolding disjoint_from
disjoint_from_iff left [] h hs = (λ e. tt, λ a. refl)
disjoint_from_iff left (right ∷ bands) h hs = elim (Bool-cases (disjoint left right)) [
  | inl e ↦
      let ih = disjoint_from_iff left bands h hs.1 in
      let apart = (disjoint_iff left right h hs.0).0 e in rw e (λ f. (apart, ih.0 f), λ a. ih.1 a.1)
  | inr e ↦ rw e (λ f. cc, λ a. cc ((disjoint_iff left right h hs.0).1 a.0))
]

check_overlaps_iff :
    (bands : List PriceRange)
    → All IsBand bands
    → (check_overlaps bands ≡ none) ↔ PairwiseApart bands
unfolding check_overlaps
check_overlaps_iff [] h = (λ e. tt, λ a. refl)
check_overlaps_iff (band ∷ bands) h = elim (Bool-cases (disjoint_from band bands)) [
  | inl e ↦
      let ih = check_overlaps_iff bands h.1 in
      let apart = (disjoint_from_iff band bands h.0 h.1).0 e in
      rw e (λ f. (apart, ih.0 f), λ a. ih.1 a.1)
  | inr e ↦ rw e (λ f. cc, λ a. cc ((disjoint_from_iff band bands h.0 h.1).1 a.0))
]

-- A price grid passes exactly when it is one: it has a band; every band has a positive step, two
-- settlement prices in order, and an end that is a whole number of steps above its start; and no
-- price lies within two of the bands.
pub validate_price_grid_iff :
    (ranges : List PriceRange) → (validate_price_grid ranges ≡ none) ↔ IsGrid ranges
unfolding validate_price_grid
validate_price_grid_iff [] = (λ e. cc, λ g. absurd (g.0 refl))
validate_price_grid_iff (band ∷ bands) = elim (Option-cases (check_bands (band ∷ bands))) [
  | inl e ↦
      let all = (check_bands_iff (band ∷ bands)).0 e in
      let apart = check_overlaps_iff (band ∷ bands) all in
      rw (e, validate_price_grid) (λ f. ((λ n. cc), all, apart.0 f), λ g. apart.1 g.2)
  | inr (reason, e) ↦
      rw (e, validate_price_grid) (λ f. cc, λ g. cc ((check_bands_iff (band ∷ bands)).1 g.1))
]
