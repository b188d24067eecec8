-- ===== src/OrderBook/Digest.antt =====
-- `state_hash`: a 64-bit digest of the book. Every product is taken modulo 2 ^ 64, and a negative
-- number is cast to its two's complement.
use Prim.Native.Nat.{bit_xor}
use eventbook.Prelude.{
  ℕ, zero, suc, ◌+◌, ◌-◌, ◌*◌, ◌/◌, ◌%◌, ◌^◌, ◌≡◌, refl, subst, sym, ap, Bool, Option, none, some,
  List, [], ◌∷◌, ◌++◌, if◌then◌else◌, ◌∙◌, Bytes, Option-cases, inl, inr, arith,
}
use eventbook.Prelude.Int.{ℤ, pos, negsuc, pos_part, ◌≤ℤ◌}
use eventbook.Price.{Price, PriceRange}
use eventbook.Quantity.{Quantity, quantity}
use eventbook.Events.{bid, ask}
use eventbook.OrderedMap.{find, IsSorted, AllEntries}
use eventbook.OrderedMap.Laws.{find-AllEntries}
use eventbook.OrderedMap.Extensional.{find_ext}
use eventbook.OrderBook.{
  OrderBook, BookStatus, awaiting_snapshot, valid, Levels, is_valid_status, value_or_zero,
  existing_size, bid_order, ask_order,
}
use eventbook.OrderBook.DigestText.{
  fnv1a, fnv1a-append, little_endian, two_complement, levels_text, validity_byte, book_text,
}
use eventbook.OrderBook.Levels.{
  PriceOrder, bid_order-PriceOrder, ask_order-PriceOrder, size_in, IsBookLevel,
}
use eventbook.OrderBook.Invariant.{IsWellFormed}
use eventbook.OrderBook.Refinement.{View, view}

abbrev pub fnv_offset_basis : ℕ
fnv_offset_basis = 1469598103934665603

abbrev pub fnv_prime : ℕ
fnv_prime = 1099511628211

unfoldable pub hash_byte : ℕ → ℕ → ℕ
hash_byte digest byte = bit_xor digest byte * fnv_prime % 2 ^ 64

-- The loop over the eight bytes, lowest first, with the rounds that are left.
unfoldable pub hash_bytes_from : ℕ → ℕ → ℕ → ℕ → ℕ
unfolding hash_byte
hash_bytes_from zero shift digest value = digest
hash_bytes_from (suc rounds) shift digest value =
    hash_bytes_from rounds (shift + 8) (hash_byte digest (value / 2 ^ shift % 256)) value

unfoldable pub hash_integer : ℕ → ℕ → ℕ
unfolding hash_bytes_from
hash_integer digest value = hash_bytes_from 8 0 digest value

unfoldable pub hash_text : ℕ → Bytes → ℕ
unfolding hash_byte
hash_text digest [] = digest
hash_text digest (c ∷ s) = hash_text (hash_byte digest c) s

-- `static_cast<std::uint64_t>`.
abbrev pub to_u64 : ℤ → ℕ
to_u64 (pos n) = n % 2 ^ 64
to_u64 (negsuc n) = 2 ^ 64 - 1 - n % 2 ^ 64

unfoldable pub hash_levels : ℕ → Levels → ℕ
unfolding hash_integer
hash_levels digest [] = digest
hash_levels digest ((p, q) ∷ m) =
    hash_levels (hash_integer (hash_integer digest (to_u64 p.units)) (to_u64 q.units)) m

unfoldable pub state_hash : OrderBook → ℕ
unfolding hash_text hash_byte hash_integer hash_levels
state_hash b =
    let named = hash_text fnv_offset_basis b.ticker.value in
    let status = hash_byte named (if is_valid_status b.status then 1 else 0) in
    let sequence = hash_integer status (value_or_zero b.last_sequence) in
    let bids = hash_levels (hash_byte sequence b'B') b.bids in
    hash_levels (hash_byte bids b'A') b.asks

-- What the lookup of a held level gives.
abbrev IsHeld : Option Quantity → Type 0
IsHeld none = Unit
IsHeld (some q) = pos 1 ≤ℤ q.units

same_found :
    (x y : Option Quantity)
    → IsHeld x
    → IsHeld y
    → (existing_size x).units ≡ (existing_size y).units
    → x ≡ y
same_found none none hx hy e = refl
same_found none (some r) hx hy e = absurd (omega (arith, ap pos_part e))
same_found (some q) none hx hy e = absurd (omega (arith, ap pos_part e))
same_found (some q) (some r) hx hy e = ap (λ u. some (quantity u)) e

module _ (lt : Price → Price → Bool) (po : PriceOrder lt) (grid other_grid : List PriceRange) where
  find-IsHeld :
      (any_grid : List PriceRange) (m : Levels) (p : Price)
      → AllEntries (IsBookLevel any_grid) m
      → IsHeld (find lt p m)
  find-IsHeld any_grid m p h = elim (Option-cases (find lt p m)) [
    | inl e ↦ subst IsHeld (sym e) tt
    | inr (q, e) ↦
        subst IsHeld (sym e) (find-AllEntries lt po.order (IsBookLevel any_grid) p m q h e).1
  ]

  levels_of_sizes :
      (m n : Levels)
      → IsSorted lt m
      → IsSorted lt n
      → AllEntries (IsBookLevel grid) m
      → AllEntries (IsBookLevel other_grid) n
      → ((p : Price) → size_in lt m p ≡ size_in lt n p)
      → m ≡ n
  levels_of_sizes m n sm sn hm hn e = find_ext lt po.order m n sm sn (λ p.
      same_found (find lt p m) (find lt p n) (find-IsHeld grid m p hm)
        (find-IsHeld other_grid n p hn) (e p))

hash_text-fnv1a : (s : Bytes) (d : ℕ) → hash_text d s ≡ fnv1a d s
unfolding hash_text hash_byte
hash_text-fnv1a [] d = refl
hash_text-fnv1a (c ∷ s) d = hash_text-fnv1a s _

hash_integer-fnv1a : (v d : ℕ) → hash_integer d v ≡ fnv1a d (little_endian v)
unfolding hash_integer hash_bytes_from hash_byte
hash_integer-fnv1a v d = refl

to_u64-two_complement : (z : ℤ) → to_u64 z ≡ two_complement z
to_u64-two_complement (pos n) = refl
to_u64-two_complement (negsuc n) = omega arith

hash_levels-fnv1a : (m : Levels) (d : ℕ) → hash_levels d m ≡ fnv1a d (levels_text m)
unfolding hash_levels
hash_levels-fnv1a [] d = refl
hash_levels-fnv1a ((p, q) ∷ m) d =
    rw
      (
        hash_integer-fnv1a (to_u64 p.units) d,
        hash_integer-fnv1a (to_u64 q.units) (fnv1a d (little_endian (to_u64 p.units))),
        hash_levels-fnv1a m _,
        to_u64-two_complement p.units,
        to_u64-two_complement q.units,
      )
      refl

sides-fnv1a :
    (m n : Levels) (d : ℕ)
    → hash_levels (hash_byte (hash_levels d m) b'A') n
      ≡ fnv1a d (levels_text m ++ (b'A' ∷ levels_text n))
unfolding hash_byte
sides-fnv1a m n d =
    rw (fnv1a-append (levels_text m) (b'A' ∷ levels_text n) d, hash_levels-fnv1a m d)
      (hash_levels-fnv1a n _)

position-fnv1a :
    (ticker : Bytes) (status : BookStatus) (sequence : ℕ) (rest : Bytes) (d : ℕ)
    → fnv1a
        (hash_integer
          (hash_byte (hash_text d ticker) (if is_valid_status status then 1 else 0))
          sequence)
        rest
      ≡ fnv1a d (ticker ++ (validity_byte status ∷ (little_endian sequence ++ rest)))
unfolding hash_byte hash_integer hash_bytes_from
position-fnv1a ticker awaiting_snapshot sequence rest d =
    rw (fnv1a-append ticker _ d, hash_text-fnv1a ticker d) refl
position-fnv1a ticker valid sequence rest d =
    rw (fnv1a-append ticker _ d, hash_text-fnv1a ticker d) refl

state_hash-fnv1a : (b : OrderBook) → state_hash b ≡ fnv1a 1_469_598_103_934_665_603 (book_text b)
unfolding state_hash hash_byte
state_hash-fnv1a b =
    sides-fnv1a b.bids b.asks _
    ∙ position-fnv1a b.ticker.value b.status (value_or_zero b.last_sequence)
        (b'B' ∷ (levels_text b.bids ++ (b'A' ∷ levels_text b.asks))) 1_469_598_103_934_665_603

same_hash :
    (b c : OrderBook)
    → IsWellFormed b
    → IsWellFormed c
    → b.ticker ≡ c.ticker
    → view b ≡ view c
    → state_hash b ≡ state_hash c
unfolding state_hash
same_hash b c wb wc t v =
    let bids =
      levels_of_sizes bid_order bid_order-PriceOrder b.grid c.grid b.bids c.bids wb.bids_sorted
        wc.bids_sorted wb.bids_levels wc.bids_levels (λ p. ap (λ (w : View). w.size bid p) v) in
    let asks =
      levels_of_sizes ask_order ask_order-PriceOrder b.grid c.grid b.asks c.asks wb.asks_sorted
        wc.asks_sorted wb.asks_levels wc.asks_levels (λ p. ap (λ (w : View). w.size ask p) v) in
    λ i. state_hash (record {
      ticker = t i;
      grid = b.grid;
      bids = bids i;
      asks = asks i;
      status = (v i).status;
      last_sequence = (v i).last_sequence;
      subscription = (v i).subscription;
    })

-- A well-formed book has the FNV-1a hash with 64 bits, from the offset of the source, of the text of any
-- well-formed book of its market that shows the same status, position and sizes: the market, the
-- validity, the sequence and every level of both sides with its price and size enter, in this order,
-- and nothing else, not the messages that led there.
pub state_hash-view :
    (b c : OrderBook)
    → IsWellFormed b
    → IsWellFormed c
    → b.ticker ≡ c.ticker
    → view b ≡ view c
    → state_hash b ≡ fnv1a 1_469_598_103_934_665_603 (book_text c)
state_hash-view b c wb wc t v = same_hash b c wb wc t v ∙ state_hash-fnv1a c
