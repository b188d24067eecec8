-- ===== src/OrderedMap/Extensional.antt =====
-- A sorted map is determined by its lookups.
use mathlib.Core.Path.{ap₂}
use eventbook.Prelude.{◌≡◌, refl, subst, ap, ◌∙◌, sym, Bool, false, none, some, [], ◌∷◌, arith}
use eventbook.OrderedMap.{StrictOrder, Map, find, After, IsSorted}

module _ {K V : Type 0} (lt : K → K → Bool) (o : StrictOrder lt) where
  find_nil : (k : K) → find {V = V} lt k [] ≡ none
  unfolding find
  find_nil k = refl

  pub find_first : (k : K) (v : V) (m : Map K V) → find lt k ((k, v) ∷ m) ≡ some v
  unfolding find
  find_first k v m = ground (arith, o.irrefl k)

  first_keys :
      (j k : K) (v w : V) (a b : Map K V)
      → ((i : K) → find lt i ((j, v) ∷ a) ≡ find lt i ((k, w) ∷ b))
      → (j ≡ k) × (v ≡ w)
  unfolding find
  first_keys j k v w a b same =
      ground (arith, same j, same k, o.irrefl j, o.irrefl k, o.total j k, o.trans j k j)

  find_behind : (j i : K) (m : Map K V) → lt j i ≡ false → After lt j m → find lt i m ≡ none
  unfolding find
  find_behind j i [] h s = refl
  find_behind j i ((k, w) ∷ m) h s = ground (arith, o.trans j k i, o.total k i)

  rest_lookups :
      (j : K) (v : V) (a b : Map K V)
      → After lt j a
      → After lt j b
      → ((i : K) → find lt i ((j, v) ∷ a) ≡ find lt i ((j, v) ∷ b))
      → (i : K) → find lt i a ≡ find lt i b
  unfolding find
  rest_lookups j v a b sa sb same i = ground (arith, same i, find_behind j i a, find_behind j i b)

  pub find_ext :
      (m n : Map K V)
      → IsSorted lt m
      → IsSorted lt n
      → ((i : K) → find lt i m ≡ find lt i n)
      → m ≡ n
  find_ext [] [] sm sn same = refl
  find_ext [] ((k, w) ∷ n) sm sn same = absurd (cc (find_nil k, same k, find_first k w n))
  find_ext ((j, v) ∷ m) [] sm sn same = absurd (cc (find_nil j, same j, find_first j v m))
  find_ext ((j, v) ∷ m) ((k, w) ∷ n) sm sn same =
      let first = first_keys j k v w m n same in
      let sn' : After lt j n = subst (λ i. After lt i n) (sym first.0) sn.0 in
      let same' : (i : K) → find lt i ((j, v) ∷ m) ≡ find lt i ((j, v) ∷ n) =
        λ i. same i ∙ ap₂ (λ a b. find lt i ((a, b) ∷ n)) (sym first.0) (sym first.1) in
      let rest = find_ext m n sm.1 sn.1 (rest_lookups j v m n sm.0 sn' same') in
      ap₂ (λ a b. (a, b) ∷ m) first.0 first.1 ∙ ap (λ t. (k, w) ∷ t) rest
