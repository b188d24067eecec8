-- ===== src/MarketQuery/Encoding.antt =====
-- `percent_encode` and a decoder: `%` with two digits stands for a byte.
use eventbook.Prelude.{
  ℕ, ◌+◌, ◌-◌, ◌*◌, ◌/◌, ◌%◌, ◌<◌, leb, ◌==◌, ◌≡◌, refl, true, false, [], ◌∷◌, All, if◌then◌else◌,
  Bytes, arith, Bool-cases, inl, inr, ap, ◌∙◌,
}
use eventbook.MarketQuery.{hex_digit, is_unreserved, percent_encode}

abbrev pub hex_value : ℕ → ℕ
hex_value c = if leb c b'9' then c - b'0' else 10 + (c - b'A')

-- What a decoder waits for: a character, or one of the two digits of a byte.
pub data Awaiting : Type 0 where
  any_char high_digit : Awaiting
  low_digit : ℕ → Awaiting

unfoldable pub decode_from : Awaiting → Bytes → Bytes
decode_from state [] = []
decode_from any_char (c ∷ s) =
    let escaped = decode_from high_digit s in
    let plain = decode_from any_char s in if c == b'%' then escaped else c ∷ plain
decode_from high_digit (c ∷ s) = decode_from (low_digit (hex_value c)) s
decode_from (low_digit h) (c ∷ s) = (16 * h + hex_value c) ∷ decode_from any_char s

abbrev pub percent_decode : Bytes → Bytes
percent_decode s = decode_from any_char s

abbrev pub IsBytes : Bytes → Type 0
IsBytes s = All (λ c. c < 256) s

hex_value-hex_digit : (n : ℕ) → n < 16 → hex_value (hex_digit n) ≡ n
hex_value-hex_digit n h = ground arith

unreserved_not_escape : (c : ℕ) → is_unreserved c ≡ true → (c == b'%') ≡ false
unfolding is_unreserved
unreserved_not_escape c h = ground arith

escaped_byte :
    (high low c : ℕ) (s : Bytes) {t : Bytes}
    → high ≡ c / 16
    → low ≡ c % 16
    → t ≡ s
    → (16 * high + low) ∷ t ≡ c ∷ s
escaped_byte high low c s {t} eh el et = ap (λ n. n ∷ t) value ∙ ap (λ t. c ∷ t) et
  where
    value : 16 * high + low ≡ c
    value = omega arith

pub percent_decode-percent_encode : (s : Bytes) → IsBytes s → percent_decode (percent_encode s) ≡ s
unfolding percent_encode decode_from
percent_decode-percent_encode [] h = refl
percent_decode-percent_encode (c ∷ s) h =
    let rest = percent_decode-percent_encode s h.1 in
    elim (Bool-cases (is_unreserved c)) [
      | inl e ↦ rw (e, percent_encode, unreserved_not_escape c e) (ap (λ t. c ∷ t) rest)
      | inr e ↦
          rw (e, percent_encode)
            (escaped_byte (hex_value (hex_digit (c / 16))) (hex_value (hex_digit (c % 16))) c s
              (hex_value-hex_digit (c / 16) (omega (arith, h.0)))
              (hex_value-hex_digit (c % 16) (omega arith)) rest)
    ]

-- Without the characters that structure a query.
abbrev pub IsValue : Bytes → Type 0
IsValue s = All (λ c. ((c == b'&') ≡ false) × ((c == b'=') ≡ false)) s

unreserved_IsPlain :
    (c : ℕ) → is_unreserved c ≡ true → ((c == b'&') ≡ false) × ((c == b'=') ≡ false)
unfolding is_unreserved
unreserved_IsPlain c h = (ground arith, ground arith)

hex_IsPlain : (n : ℕ) → n < 16 → ((hex_digit n == b'&') ≡ false) × ((hex_digit n == b'=') ≡ false)
hex_IsPlain n h = (ground arith, ground arith)

pub percent_encode-IsValue : (s : Bytes) → IsBytes s → IsValue (percent_encode s)
unfolding percent_encode
percent_encode-IsValue [] h = tt
percent_encode-IsValue (c ∷ s) h =
    let rest = percent_encode-IsValue s h.1 in
    elim (Bool-cases (is_unreserved c)) [
      | inl e ↦ rw (e, percent_encode) (unreserved_IsPlain c e, rest)
      | inr e ↦
          rw (e, percent_encode)
            (
              (refl, refl),
              (
                hex_IsPlain (c / 16) (omega (arith, h.0)),
                (hex_IsPlain (c % 16) (omega arith), rest),
              ),
            )
    ]
