-- ===== src/OrderBook/DigestText.antt =====
-- FNV-1a, and the text of a book that is hashed, without the program's hash.
use Prim.Native.Nat.{bit_xor}
use eventbook.Prelude.{
  ℕ, suc, ◌-◌, ◌*◌, ◌/◌, ◌%◌, ◌^◌, ◌≡◌, refl, Option, none, some, [], ◌∷◌, ◌++◌, Bytes,
}
use eventbook.Prelude.Int.{ℤ, pos, negsuc}
use eventbook.Events.{SequenceNumber}
use eventbook.OrderBook.{OrderBook, BookStatus, valid, Levels}

-- FNV-1a with 64 bits, of a text of bytes: each byte goes in by exclusive or, and the digest is then
-- multiplied by the prime.
abbrev pub fnv1a : ℕ → Bytes → ℕ
fnv1a digest [] = digest
fnv1a digest (c ∷ s) = fnv1a (bit_xor digest c * 1_099_511_628_211 % 2 ^ 64) s

-- A number of 64 bits in eight bytes, the lowest first.
abbrev pub little_endian : ℕ → Bytes
little_endian v =
    (v / 2 ^ 0 % 256)
    ∷ (v / 2 ^ 8 % 256)
    ∷ (v / 2 ^ 16 % 256)
    ∷ (v / 2 ^ 24 % 256)
    ∷ (v / 2 ^ 32 % 256)
    ∷ (v / 2 ^ 40 % 256)
    ∷ (v / 2 ^ 48 % 256)
    ∷ (v / 2 ^ 56 % 256)
    ∷ []

-- A price or a size as a number of 64 bits: a negative one in two's complement.
abbrev pub two_complement : ℤ → ℕ
two_complement (pos n) = n % 2 ^ 64
two_complement (negsuc n) = 2 ^ 64 - suc (n % 2 ^ 64)

abbrev pub levels_text : Levels → Bytes
levels_text [] = []
levels_text ((p, q) ∷ m) =
    little_endian (two_complement p.units)
    ++ little_endian (two_complement q.units)
    ++ levels_text m

abbrev pub validity_byte : BookStatus → ℕ
validity_byte valid = 1
validity_byte _ = 0

abbrev pub sequence_number : Option SequenceNumber → ℕ
sequence_number none = 0
sequence_number (some n) = n.value

-- All that a book shows, written out: the market, whether the book is valid, the sequence, and both
-- sides with the price and the size of each level from the best price on.
abbrev pub book_text : OrderBook → Bytes
book_text b =
    b.ticker.value
    ++ (validity_byte b.status
        ∷ (little_endian (sequence_number b.last_sequence)
            ++ (b'B' ∷ (levels_text b.bids ++ (b'A' ∷ levels_text b.asks)))))

pub fnv1a-append : (s t : Bytes) (d : ℕ) → fnv1a d (s ++ t) ≡ fnv1a (fnv1a d s) t
fnv1a-append [] t d = refl
fnv1a-append (c ∷ s) t d = fnv1a-append s t _
