-- ===== src/OrderedMap.antt =====
-- `std::map` with its comparator, as far as src/book/order_book.cpp uses it: entries in the order of
-- their keys, found by comparison alone.
pub mod Laws
pub mod Extensional
use eventbook.Prelude.{
  ◌≡◌, Bool, true, false, not, ◌&&◌, Option, none, some, List, [], ◌∷◌, if◌then◌else◌,
}

-- The comparator is a strict total order.
pub record StrictOrder {ℓ} {K : Type ℓ} (lt : K → K → Bool) : Type ℓ where
  pub irrefl : (a : K) → lt a a ≡ false
  pub trans : (a b c : K) → lt a b ≡ true → lt b c ≡ true → lt a c ≡ true
  pub total : (a b : K) → lt a b ≡ false → lt b a ≡ false → a ≡ b

abbrev pub Map : Type 0 → Type 0 → Type 0
Map K V = List (K × V)

-- Two keys that the comparator does not tell apart.
abbrev pub same_key {ℓ} : {K : Type ℓ} → (K → K → Bool) → K → K → Bool
same_key lt a b = not (lt a b) && not (lt b a)

module _ {K V : Type 0} (lt : K → K → Bool) where
  -- `map.find(key)`, with the value found there.
  unfoldable pub find : K → Map K V → Option V
  find k [] = none
  find k ((j, v) ∷ m) = if lt j k then find k m else if lt k j then none else some v

  -- `map[key] = value`: it overwrites the value at a key that is there.
  unfoldable pub assign : K → V → Map K V → Map K V
  assign k v [] = (k, v) ∷ []
  assign k v ((j, w) ∷ m) =
      if lt j k then (j, w) ∷ assign k v m else if lt k j then (k, v) ∷ (j, w) ∷ m else (j, v) ∷ m

  -- `map.erase(map.find(key))`, which leaves the map alone where the key is not there.
  unfoldable pub erase : K → Map K V → Map K V
  erase k [] = []
  erase k ((j, w) ∷ m) = if lt j k then (j, w) ∷ erase k m else if lt k j then (j, w) ∷ m else m

  -- Every key comes after `k`.
  abbrev pub After : K → Map K V → Type 0
  After k [] = Unit
  After k ((j, v) ∷ m) = (lt k j ≡ true) × After k m

  abbrev pub IsSorted : Map K V → Type 0
  IsSorted [] = Unit
  IsSorted ((k, v) ∷ m) = After k m × IsSorted m

-- A predicate that holds of every entry.
abbrev pub AllEntries : {K V : Type 0} → (K → V → Type 0) → Map K V → Type 0
AllEntries P [] = Unit
AllEntries P ((k, v) ∷ m) = P k v × AllEntries P m
