-- ===== src/Prelude/Outcome.antt =====
-- include/eventbook/common/result.hpp: `Result<T, E>` holds a value or a `Failure`.
use mathlib.Core.Path.{◌≡◌, refl}
use mathlib.Core.Logic.{◌⊎◌, inl, inr}
use mathlib.Core.Option.{Option, none, some}

pub data Result {ℓ κ} (T : Type ℓ) (E : Type κ) : Type (ℓ ⊔ κ) where
  ok : T → Result T E
  failure : E → Result T E

infixl 5 ◌>>=◌
abbrev pub ◌>>=◌ {ℓ κ ι} :
    {T : Type ℓ} {E : Type κ} {U : Type ι} → Result T E → (T → Result U E) → Result U E
ok a >>= f = f a
failure e >>= f = failure e

abbrev pub or_fail {ℓ κ} : {T : Type ℓ} {E : Type κ} → Option T → E → Result T E
or_fail none e = failure e
or_fail (some a) e = ok a

-- What a successful bind says of its parts.
pub >>=-eq-ok {ℓ κ ι} :
    {T : Type ℓ} {E : Type κ} {U : Type ι} (m : Result T E) (f : T → Result U E) {b : U}
    → (m >>= f) ≡ ok b
    → (a : T) × (m ≡ ok a) × (f a ≡ ok b)
>>=-eq-ok (ok a) f h = (a, refl, h)
>>=-eq-ok (failure e) f h = cc

pub Result-cases {ℓ κ} :
    {T : Type ℓ} {E : Type κ} (m : Result T E)
    → ((e : E) × (m ≡ failure e)) ⊎ ((a : T) × (m ≡ ok a))
Result-cases (ok a) = inr (a, refl)
Result-cases (failure e) = inl (e, refl)
