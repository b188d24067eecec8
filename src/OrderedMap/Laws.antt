-- ===== src/OrderedMap/Laws.antt =====
-- Lookup after each update, and what the updates keep.
use mathlib.Core.Path.{subst₂}
use eventbook.Prelude.{◌≡◌, refl, subst, Bool, true, none, some, [], ◌∷◌, if◌then◌else◌, arith}
use eventbook.OrderedMap.{
  StrictOrder, Map, find, assign, erase, same_key, After, IsSorted, AllEntries,
}

module _ {K V : Type 0} (lt : K → K → Bool) (o : StrictOrder lt) where
  After-trans : (a b : K) (m : Map K V) → lt a b ≡ true → After lt b m → After lt a m
  After-trans a b [] h s = tt
  After-trans a b ((j, v) ∷ m) h s = (o.trans a b j h s.0, After-trans a b m h s.1)

  -- Nothing is found in front of the first key.
  pub find-After : (k : K) (m : Map K V) → After lt k m → find lt k m ≡ none
  unfolding find
  find-After k [] s = refl
  find-After k ((j, v) ∷ m) s = ground (arith, o.trans j k j, o.irrefl j)

  assign-After :
      (a k : K) (v : V) (m : Map K V) → lt a k ≡ true → After lt a m → After lt a (assign lt k v m)
  unfolding assign
  assign-After a k v [] h s = (h, tt)
  assign-After a k v ((j, w) ∷ m) h s = ground (arith, assign-After a k v m h s.1)

  pub assign-IsSorted :
      (k : K) (v : V) (m : Map K V) → IsSorted lt m → IsSorted lt (assign lt k v m)
  unfolding assign
  assign-IsSorted k v [] s = (tt, tt)
  assign-IsSorted k v ((j, w) ∷ m) s =
      ground (arith, assign-After j k v m, assign-IsSorted k v m s.1, After-trans k j m)

  erase-After : (a k : K) (m : Map K V) → After lt a m → After lt a (erase lt k m)
  unfolding erase
  erase-After a k [] s = tt
  erase-After a k ((j, w) ∷ m) s = ground (arith, erase-After a k m s.1)

  pub erase-IsSorted : (k : K) (m : Map K V) → IsSorted lt m → IsSorted lt (erase lt k m)
  unfolding erase
  erase-IsSorted k [] s = tt
  erase-IsSorted k ((j, w) ∷ m) s = ground (arith, erase-After j k m s.0, erase-IsSorted k m s.1)

  -- A lookup after `map[key] = value`.
  pub find-assign :
      (i k : K) (v : V) (m : Map K V)
      → find lt i (assign lt k v m) ≡ (if same_key lt k i then some v else find lt i m)
  unfolding find assign
  find-assign i k v [] = ground arith
  find-assign i k v ((j, w) ∷ m) = ground (
    arith,
    find-assign i k v m,
    o.total j i,
    o.total k i,
    o.total j k,
    o.trans i j k,
    o.trans i k j,
    o.trans j i j,
    o.irrefl j,
  )

  -- A lookup after the key was erased.
  pub find-erase :
      (i k : K) (m : Map K V)
      → IsSorted lt m
      → find lt i (erase lt k m) ≡ (if same_key lt k i then none else find lt i m)
  unfolding find erase
  find-erase i k [] s = ground arith
  find-erase i k ((j, w) ∷ m) s = ground (
    arith,
    find-erase i k m s.1,
    find-After i m,
    After-trans i j m,
    o.total j i,
    o.total k i,
    o.total j k,
    o.trans i j k,
    o.trans i k j,
    o.trans j i j,
    o.irrefl j,
  )

module _ {K V : Type 0} (lt : K → K → Bool) (o : StrictOrder lt) (P : K → V → Type 0) where
  pub assign-AllEntries :
      (k : K) (v : V) (m : Map K V) → P k v → AllEntries P m → AllEntries P (assign lt k v m)
  unfolding assign
  assign-AllEntries k v [] new h = (new, tt)
  assign-AllEntries k v ((j, w) ∷ m) new h =
      ground (
        arith,
        assign-AllEntries k v m new h.1,
        λ (p : k ≡ j). subst (λ i. P i v) p new,
        o.total k j,
      )

  pub erase-AllEntries : (k : K) (m : Map K V) → AllEntries P m → AllEntries P (erase lt k m)
  unfolding erase
  erase-AllEntries k [] h = tt
  erase-AllEntries k ((j, w) ∷ m) h = ground (arith, erase-AllEntries k m h.1)

  -- What is found has the property.
  pub find-AllEntries :
      (k : K) (m : Map K V) (v : V) → AllEntries P m → find lt k m ≡ some v → P k v
  unfolding find
  find-AllEntries k [] v h e = cc
  find-AllEntries k ((j, w) ∷ m) v h e =
      ground
        (arith, find-AllEntries k m v h.1, o.total j k, λ (p : j ≡ k) (q : w ≡ v). subst₂ P p q h.0)
