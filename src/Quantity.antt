-- ===== src/Quantity.antt =====
-- include/eventbook/common/quantity.hpp and src/common/quantity.cpp: sizes in units of 0.01
-- contracts, and signed changes of them. Both are `int64` in the source and integers here;
-- `Quantity.Laws` shows that `apply_delta` computes nothing outside that range.
pub mod Laws
mod Examples
use eventbook.Prelude.{ℕ, Bool, true, false, if◌then◌else◌, Bytes, Result, ok, failure, ◌>>=◌}
use eventbook.Prelude.Int.{ℤ, pos, neg_ℤ, ◌+ℤ◌, ◌-ℤ◌, ltb_ℤ, max_i64}
use eventbook.Decimal.{DecimalParseError, parse_scaled_decimal, format_scaled_decimal, Fmt}

pub record Quantity : Type 0 where
  pub units : ℤ

abbrev pub quantity : ℤ → Quantity
quantity u = record { units = u }

abbrev pub fractional_digits : ℕ
fractional_digits = 2

pub record QuantityDelta : Type 0 where
  pub units : ℤ

abbrev pub quantity_delta : ℤ → QuantityDelta
quantity_delta u = record { units = u }

-- `quantity - quantity`, `quantity + quantity`, `delta + delta` and `-delta`.
unfoldable pub difference : Quantity → Quantity → QuantityDelta
difference left right = quantity_delta (left.units -ℤ right.units)

unfoldable pub total : Quantity → Quantity → Quantity
total left right = quantity (left.units +ℤ right.units)

unfoldable pub join : QuantityDelta → QuantityDelta → QuantityDelta
join left right = quantity_delta (left.units +ℤ right.units)

unfoldable pub opposite : QuantityDelta → QuantityDelta
opposite delta = quantity_delta (neg_ℤ delta.units)

pub data QuantityDeltaError : Type 0 where
  would_go_negative overflow : QuantityDeltaError

unfoldable pub apply_delta : Quantity → QuantityDelta → Result Quantity QuantityDeltaError
apply_delta q delta =
    let updated = ok (quantity (q.units +ℤ delta.units)) in
    if ltb_ℤ delta.units (pos 0)
    then (if ltb_ℤ (q.units +ℤ delta.units) (pos 0) then failure would_go_negative else updated)
    else if ltb_ℤ (pos max_i64 -ℤ delta.units) q.units
    then failure overflow
    else updated

unfoldable pub parse_quantity : Bytes → Result Quantity DecimalParseError
parse_quantity contracts =
    parse_scaled_decimal contracts fractional_digits false >>= λ units. ok (quantity units)

unfoldable pub parse_quantity_delta : Bytes → Result QuantityDelta DecimalParseError
parse_quantity_delta contracts =
    parse_scaled_decimal contracts fractional_digits true >>= λ units. ok (quantity_delta units)

unfoldable pub format_quantity : Fmt → Quantity → Bytes
format_quantity fmt q = format_scaled_decimal fmt q.units fractional_digits

unfoldable pub format_quantity_delta : Fmt → QuantityDelta → Bytes
format_quantity_delta fmt delta = format_scaled_decimal fmt delta.units fractional_digits
