-- ===== src/Price.antt =====
-- include/eventbook/common/price.hpp and src/common/price.cpp: prices on the YES scale, in units of
-- $0.0001. A price is an `int32` in the source and an integer here: `Price.Laws` bounds what the
-- parser returns, and inside the settlement bounds no operation comes near the ends of the range.
pub mod Laws
mod Examples
use eventbook.Prelude.{
  ℕ, ◌≤◌, ◌<◌, ◌≡◌, Bool, true, false, ◌&&◌, ◌||◌, not, List, [], ◌∷◌, if◌then◌else◌, Bytes, Result,
  ok, failure, ◌>>=◌,
}
use eventbook.Prelude.Int.{ℤ, pos, negsuc, neg_ℤ, ◌+ℤ◌, ◌-ℤ◌, ◌%ℤ◌, ltb_ℤ, leb_ℤ, eqb_ℤ, max_i32}
use eventbook.Decimal.{
  DecimalParseError, overflow, parse_scaled_decimal, format_scaled_decimal, Fmt,
}

pub record Price : Type 0 where
  pub units : ℤ

abbrev pub price : ℤ → Price
price u = record { units = u }

abbrev pub units_per_dollar : ℕ
units_per_dollar = 10_000

abbrev pub fractional_digits : ℕ
fractional_digits = 4

pub record PriceDelta : Type 0 where
  pub units : ℤ

-- `price - price`, `price + delta`, `price - delta`, `delta + delta` and `-delta`.
unfoldable pub difference : Price → Price → PriceDelta
difference left right = record { units = left.units -ℤ right.units }

unfoldable pub shift : Price → PriceDelta → Price
shift p delta = record { units = p.units +ℤ delta.units }

unfoldable pub shift_back : Price → PriceDelta → Price
shift_back p delta = record { units = p.units -ℤ delta.units }

unfoldable pub join : PriceDelta → PriceDelta → PriceDelta
join left right = record { units = left.units +ℤ right.units }

unfoldable pub opposite : PriceDelta → PriceDelta
opposite delta = record { units = neg_ℤ delta.units }

-- `<` and `<=` of two prices.
abbrev pub before : Price → Price → Bool
before a b = ltb_ℤ a.units b.units

abbrev pub not_after : Price → Price → Bool
not_after a b = leb_ℤ a.units b.units

abbrev pub min_yes_price : Price
min_yes_price = price (pos 0)

abbrev pub max_yes_price : Price
max_yes_price = price (pos units_per_dollar)

abbrev pub is_valid_yes_price : Price → Bool
is_valid_yes_price p = not_after min_yes_price p && not_after p max_yes_price

unfoldable pub yes_price_from_no : Price → Price
yes_price_from_no no_price = price (pos units_per_dollar -ℤ no_price.units)

unfoldable pub parse_price : Bytes → Result Price DecimalParseError
parse_price dollars = do
  units ← parse_scaled_decimal dollars fractional_digits false
  if ltb_ℤ units (negsuc max_i32) || ltb_ℤ (pos max_i32) units
      then failure overflow
      else ok (price units)

unfoldable pub format_price : Fmt → Price → Bytes
format_price fmt p = format_scaled_decimal fmt p.units fractional_digits

pub record PriceRange : Type 0 where
  pub start : Price
  pub end : Price
  pub step : PriceDelta

-- The loop over the bands: `continue` goes to the next one.
unfoldable pub is_on_price_grid : Price → List PriceRange → Bool
is_on_price_grid p [] = false
is_on_price_grid p (band ∷ ranges) =
    let later = is_on_price_grid p ranges in
    if leb_ℤ band.step.units (pos 0) || before p band.start || before band.end p
    then later
    else if eqb_ℤ ((p.units -ℤ band.start.units) %ℤ band.step.units) (pos 0)
    then true
    else later
