-- ===== src/Price/Examples.antt =====
-- The theorems on prices at concrete ones.
use eventbook.Prelude.{◌≡◌, ◌↔◌, refl, true, [], ◌∷◌, List, codes, ok}
use eventbook.Prelude.Int.{pos}
use eventbook.Decimal.{power_of_ten, parse_scaled_decimal}
use eventbook.Price.{price, PriceRange, parse_price, is_on_price_grid}
use eventbook.Price.Laws.{OnBand, Any, is_on_price_grid_iff}

read_price : parse_price (codes "0.5010") ≡ ok (price (pos 5010))
unfolding parse_price parse_scaled_decimal power_of_ten
read_price = refl

abbrev cents : List PriceRange
cents =
    record { start = price (pos 100); end = price (pos 9900); step = record { units = pos 100 } }
    ∷ []

is_on_price_grid_iff_example :
    (is_on_price_grid (price (pos 4200)) cents ≡ true) ↔ Any (OnBand (price (pos 4200))) cents
is_on_price_grid_iff_example = is_on_price_grid_iff (price (pos 4200)) cents
