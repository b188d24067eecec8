-- ===== src/Price/Laws.antt =====
-- Prices: the range of what is parsed, the reflection of NO prices, and the tick grid.
use native.Mathlib.Nat.{div-add-mod, mul-mod_right}
use eventbook.Prelude.{
  ℕ, ◌*◌, ◌/◌, ◌%◌, ◌≤◌, ◌≡◌, refl, subst, ap, ◌∙◌, ◌↔◌, ◌⊎◌, inl, inr, Bool, true, false, ◌||◌,
  List, [], ◌∷◌, Bool-cases, Bytes, ok, >>=-eq-ok, arith,
}
use eventbook.Prelude.Int.{
  ℤ, pos, negsuc, pos_part, ◌+ℤ◌, ◌-ℤ◌, ◌%ℤ◌, ◌≤ℤ◌, leb_ℤ, eqb_ℤ, max_i32, int_laws, -ℤ_parts,
  +ℤ_parts, nonneg_part, neg_part,
}
use eventbook.Decimal.{Fmt, parse_scaled_decimal, signed}
use eventbook.Decimal.Spec.{Numeral, text_of, IsDecimal, units_of}
use eventbook.Decimal.Parse.{parse_scaled_decimal_sound}
use eventbook.Decimal.Format.{FmtLaws, parse_scaled_decimal-format_scaled_decimal}
use eventbook.Price.{
  Price, price, PriceRange, parse_price, format_price, yes_price_from_no, is_valid_yes_price,
  is_on_price_grid, before, units_per_dollar, fractional_digits, difference, shift,
}

-- The settlement bounds.
abbrev pub IsYesPrice : Price → Type 0
IsYesPrice p = (pos 0 ≤ℤ p.units) × (p.units ≤ℤ pos units_per_dollar)

pub is_valid_yes_price_iff : (p : Price) → (is_valid_yes_price p ≡ true) ↔ IsYesPrice p
is_valid_yes_price_iff p = ground arith

-- Reflecting a price twice gives it back, and keeps it within the settlement bounds.
pub yes_price_from_no_twice :
    (p : Price)
    → (yes_price_from_no (yes_price_from_no p) ≡ p)
      × (IsYesPrice p → IsYesPrice (yes_price_from_no p))
unfolding yes_price_from_no
yes_price_from_no_twice p = (ap price (omega int_laws), λ h. omega int_laws)

-- Reflection turns the order of prices round.
pub yes_price_from_no_anti :
    (p q : Price) → p.units ≤ℤ q.units → (yes_price_from_no q).units ≤ℤ (yes_price_from_no p).units
unfolding yes_price_from_no
yes_price_from_no_anti p q h = omega int_laws

-- Distance and displacement are inverse.
pub shift-difference : (p q : Price) → shift p (difference q p) ≡ q
unfolding shift difference
shift-difference p q = ap price (omega int_laws)

-- A price that is read is the exact number of units in the text, unsigned, and fits `int32`.
pub parse_price_sound :
    (t : Bytes) (p : Price)
    → parse_price t ≡ ok p
    → (n : Numeral) × (t ≡ text_of n)
      × IsDecimal fractional_digits n
      × (p.units ≡ pos (units_of fractional_digits n))
      × (units_of fractional_digits n ≤ max_i32)
unfolding parse_price
parse_price_sound t p e =
    let (z, e₁, e₂) = >>=-eq-ok (parse_scaled_decimal t fractional_digits false) _ e in
    let (n, text, decimal, sign, fits, exact) =
      parse_scaled_decimal_sound t fractional_digits false z (omega arith) e₁ in
    let plain : n.negative ≡ false = elim (Bool-cases n.negative) [
      | inl h ↦ absurd (cc (sign h))
      | inr h ↦ h
    ] in
    let z_is : z ≡ pos (units_of fractional_digits n) =
      subst (λ b. z ≡ signed b (units_of fractional_digits n)) plain exact in
    (n, text, decimal, ground arith, ground arith)

-- Every price from zero to the largest `int32` is read back from its print.
pub parse_price-format_price :
    (fmt : Fmt) (laws : FmtLaws fmt) (u : ℕ)
    → u ≤ max_i32
    → parse_price (format_price fmt (price (pos u))) ≡ ok (price (pos u))
unfolding parse_price format_price
parse_price-format_price fmt laws u h =
    let read =
      parse_scaled_decimal-format_scaled_decimal fmt laws (pos u) fractional_digits false
        (omega arith) (omega arith) refl in
    rw read (ground arith)

-- A level of a band: a whole number of steps above its start, and not above its end.
pub record OnBand (p : Price) (band : PriceRange) : Type 0 where
  pub steps : ℕ
  pub step_pos : pos 1 ≤ℤ band.step.units
  pub is_level : p.units ≡ band.start.units +ℤ pos (pos_part band.step.units * steps)
  pub in_band : p.units ≤ℤ band.end.units

abbrev pub Any {ℓ} : {A : Type ℓ} → (A → Type 0) → List A → Type 0
Any P [] = ⊥
Any P (x ∷ xs) = P x ⊎ Any P xs

rem_zero :
    (a b : ℤ)
    → pos 0 ≤ℤ a
    → pos 1 ≤ℤ b
    → (eqb_ℤ (a %ℤ b) (pos 0) ≡ true) ↔ (pos_part a % pos_part b ≡ 0)
unfolding ◌%ℤ◌
rem_zero (pos m) (pos s) h k = ground arith
rem_zero (pos m) (negsuc s) h k = absurd (omega arith)
rem_zero (negsuc m) b h k = absurd (omega arith)

multiple_of_rem : (m s : ℕ) → m % s ≡ 0 → m ≡ s * (m / s)
multiple_of_rem m s h = omega (arith, div-add-mod m s)

rem_of_multiple : (s j : ℕ) → s * j % s ≡ 0
rem_of_multiple s j = mul-mod_right s j

-- The test of one band.
abbrev pub skips : Price → PriceRange → Bool
skips p band = leb_ℤ band.step.units (pos 0) || before p band.start || before band.end p

abbrev pub hits : Price → PriceRange → Bool
hits p band = eqb_ℤ ((p.units -ℤ band.start.units) %ℤ band.step.units) (pos 0)

skips-OnBand : (p : Price) (band : PriceRange) → skips p band ≡ true → ¬ OnBand p band
skips-OnBand p band h on = ground (
  arith,
  +ℤ_parts band.start.units (pos (pos_part band.step.units * on.steps)),
  ap pos_part on.is_level,
  ap neg_part on.is_level,
)

pub hits-OnBand :
    (p : Price) (band : PriceRange) → skips p band ≡ false → (hits p band ≡ true) ↔ OnBand p band
hits-OnBand p band h = (found, lands)
  where
    open band use {start, step}

    gap : ℤ
    gap = p.units -ℤ start.units

    gap_nonneg : pos 0 ≤ℤ gap
    gap_nonneg = ground (arith, -ℤ_parts p.units start.units)

    step_pos : pos 1 ≤ℤ step.units
    step_pos = ground arith

    test : (hits p band ≡ true) ↔ (pos_part gap % pos_part step.units ≡ 0)
    test = rem_zero gap step.units gap_nonneg step_pos

    found : hits p band ≡ true → OnBand p band
    found e =
        let exact = multiple_of_rem (pos_part gap) (pos_part step.units) (test.0 e) in
        record {
          steps = pos_part gap / pos_part step.units;
          step_pos = step_pos;
          is_level = level (pos_part step.units * (pos_part gap / pos_part step.units)) exact;
          in_band = ground arith;
        }
      where
        level : (m : ℕ) → pos_part gap ≡ m → p.units ≡ start.units +ℤ pos m
        level m e = omega (int_laws, nonneg_part gap gap_nonneg, -ℤ_parts p.units start.units)

    lands : OnBand p band → hits p band ≡ true
    lands on = test.1 (
        ap (λ m. m % pos_part step.units) (width (pos_part step.units * on.steps) on.is_level)
        ∙ rem_of_multiple (pos_part step.units) on.steps)
      where
        width : (m : ℕ) → p.units ≡ start.units +ℤ pos m → pos_part gap ≡ m
        width m e = omega (
          int_laws,
          ap pos_part e,
          ap neg_part e,
          nonneg_part gap gap_nonneg,
          -ℤ_parts p.units start.units,
          +ℤ_parts start.units (pos m),
        )

-- A price passes the tick check exactly when it is a level of some band.
pub is_on_price_grid_iff :
    (p : Price) (ranges : List PriceRange)
    → (is_on_price_grid p ranges ≡ true) ↔ Any (OnBand p) ranges
unfolding is_on_price_grid
is_on_price_grid_iff p [] = (λ h. cc, λ h. absurd h)
is_on_price_grid_iff p (band ∷ ranges) = elim (Bool-cases (skips p band)) [
  | inl out ↦ rw out (
    (λ e. inr ((is_on_price_grid_iff p ranges).0 e)),
    (λ a. elim a [
      | inl on ↦ absurd (skips-OnBand p band out on)
      | inr later ↦ (is_on_price_grid_iff p ranges).1 later
    ]),
  )
  | inr within ↦ elim (Bool-cases (hits p band)) [
    | inl hit ↦ rw (within, hit) ((λ _. inl ((hits-OnBand p band within).0 hit)), (λ _. refl))
    | inr miss ↦
        rw (within, miss)
          (
            (λ e. inr ((is_on_price_grid_iff p ranges).0 e)),
            (λ a. elim a [
              | inl on ↦ absurd (cc ((hits-OnBand p band within).1 on))
              | inr later ↦ (is_on_price_grid_iff p ranges).1 later
            ]),
          )
  ]
]
