-- ===== src/WsProtocol/Wire.antt =====
-- What a message that is read promises to the order book.
use eventbook.Prelude.{
  ℕ, ◌≡◌, ◌≤◌, refl, sym, subst, Bool, true, false, Option, none, some, List, [], ◌∷◌, All, Bytes,
  codes, Result, ok, failure, >>=-eq-ok, arith, Bool-cases, Option-cases, inl, inr,
}
use eventbook.Prelude.Int.{pos, ◌≤ℤ◌, InRange, max_i64, neg_ℤ}
use eventbook.Decimal.{DecimalParseError, parse_scaled_decimal, signed}
use eventbook.Decimal.Parse.{parse_scaled_decimal_sound}
use eventbook.Price.{Price}
use eventbook.Quantity.{
  Quantity, QuantityDelta, quantity_delta, fractional_digits, parse_quantity, parse_quantity_delta,
}
use eventbook.Events.{
  BookSide, bid, ask, BookLevel, MarketTicker, SubscriptionId, SequenceNumber, MarketEvent,
  snapshot, delta, trade, ack, error, unhandled,
}
use eventbook.OrderBook.Invariant.{IsWireLevel, IsWireSnapshot, IsWireDelta}
use eventbook.Json.{JsonLibrary}
use eventbook.WsProtocol.{PriceConvention, WsParseError, StdSort, invalid_quantity}
use eventbook.WsProtocol.FieldReader.{
  WsReader, return, find_value, record_error, integer_field, quantity_delta_field,
}
use eventbook.WsProtocol.Messages.{
  after_both, level_of_pair, read_level, read_entries, read_levels, snapshot_levels, parse_snapshot,
  delta_fields, parse_delta, parse_trade, parse_subscribed, parse_error, parse_typed,
  parse_with_type, parse_root, parse_ws_message, header_fields, ticker_field, message_of,
  trade_fields, ack_fields, error_fields,
}

-- What the documentation of `std::sort` says of the elements: they are those of the range.
pub record SortLaws (std : StdSort) : Type 1 where
  pub sort_all :
      {A : Type 0} (lt : A → A → Bool) (P : A → Type 0) (xs : List A)
      → All P xs
      → All P (std.sort lt xs)

-- The sizes of a snapshot and the change of a delta are `int64`.
abbrev pub IsWireEvent : MarketEvent → Type 0
IsWireEvent (snapshot s) = IsWireSnapshot s
IsWireEvent (delta d) = IsWireDelta d
IsWireEvent (trade t) = Unit
IsWireEvent (ack a) = Unit
IsWireEvent (error e) = Unit
IsWireEvent (unhandled u) = Unit

abbrev IsWireResult : Result MarketEvent WsParseError → Type 0
IsWireResult (ok event) = IsWireEvent event
IsWireResult (failure e) = Unit

signed_range : (negative : Bool) (n : ℕ) → n ≤ max_i64 → InRange 63 (signed negative n)
unfolding neg_ℤ
signed_range true n h = ground arith
signed_range false n h = ground arith

parse_quantity-bound : (t : Bytes) (q : Quantity) → parse_quantity t ≡ ok q → q.units ≤ℤ pos max_i64
unfolding parse_quantity
parse_quantity-bound t q e =
    let (z, e₁, e₂) = >>=-eq-ok (parse_scaled_decimal t fractional_digits false) _ e in
    let (n, text, decimal, sign, fits, exact) =
      parse_scaled_decimal_sound t fractional_digits false z (omega arith) e₁ in
    let range = subst (InRange 63) (sym exact) (signed_range n.negative _ fits) in ground arith

parse_quantity_delta-range :
    (t : Bytes) (d : QuantityDelta) → parse_quantity_delta t ≡ ok d → InRange 63 d.units
unfolding parse_quantity_delta
parse_quantity_delta-range t d e =
    let (z, e₁, e₂) = >>=-eq-ok (parse_scaled_decimal t fractional_digits true) _ e in
    let (n, text, decimal, sign, fits, exact) =
      parse_scaled_decimal_sound t fractional_digits true z (omega arith) e₁ in
    let range = subst (InRange 63) (sym exact) (signed_range n.negative _ fits) in ground arith

-- A predicate of the value, if there is one.
abbrev If {ℓ} : {A : Type ℓ} → (A → Type 0) → Option A → Type 0
If P none = Unit
If P (some a) = P a

module _ (lib : JsonLibrary) (std : StdSort) (laws : SortLaws std) where
  level_of_pair-IsWireLevel :
      (pair : List lib.Json) (level : BookLevel)
      → level_of_pair lib std pair ≡ some level
      → IsWireLevel level
  level_of_pair-IsWireLevel [] level e = cc
  level_of_pair-IsWireLevel (p ∷ []) level e = cc
  level_of_pair-IsWireLevel (p ∷ q ∷ []) level e = grind (arith, parse_quantity-bound)
  level_of_pair-IsWireLevel (p ∷ q ∷ r ∷ rest) level e = cc

  read_level-IsWireLevel :
      (entry : lib.Json) (level : BookLevel)
      → read_level lib std entry ≡ some level
      → IsWireLevel level
  unfolding read_level
  read_level-IsWireLevel entry level e = elim (Option-cases (lib.as_array entry)) [
    | inl none_there ↦ cc
    | inr (pair, there) ↦ level_of_pair-IsWireLevel pair level (rw (there, read_level) at e)
  ]

  read_entries-IsWireLevel :
      (side : BookSide) (c : PriceConvention) (entries : List lib.Json)
      → If (All IsWireLevel) (read_entries lib std side c entries)
  unfolding read_entries
  read_entries-IsWireLevel side c [] = tt
  read_entries-IsWireLevel side c (entry ∷ entries) =
      let ih = read_entries-IsWireLevel side c entries in
      elim (Option-cases (read_level lib std entry)) [
        | inl e ↦ rw (e, read_entries) tt
        | inr (level, e) ↦ elim (Option-cases (read_entries lib std side c entries)) [
          | inl f ↦ rw (e, f, read_entries) tt
          | inr (levels, f) ↦
              rw (e, f, read_entries)
                (read_level-IsWireLevel entry level e, subst (If (All IsWireLevel)) f ih)
        ]
      ]

  read_levels-IsWireLevel :
      (message : lib.Json) (field : Bytes) (side : BookSide) (c : PriceConvention)
      → If (All IsWireLevel) (read_levels lib std message field side c)
  unfolding read_levels
  read_levels-IsWireLevel message field side c = elim (Option-cases (lib.find message field)) [
    | inl e ↦ rw (e, read_levels) tt
    | inr (value, e) ↦ elim (Bool-cases (lib.is_null value)) [
      | inl f ↦ rw (e, f, read_levels) tt
      | inr f ↦ elim (Option-cases (lib.as_array value)) [
        | inl g ↦ rw (e, f, g, read_levels) tt
        | inr (entries, g) ↦ rw (e, f, g, read_levels) (read_entries-IsWireLevel side c entries)
      ]
    ]
  ]

  snapshot_levels-IsWireResult :
      (message : lib.Json) (c : PriceConvention) (h : SubscriptionId × SequenceNumber)
      (t : MarketTicker)
      → IsWireResult (snapshot_levels lib std message c h t)
  unfolding snapshot_levels
  snapshot_levels-IsWireResult message c (sid, seq) t =
      elim (Option-cases (read_levels lib std message (codes "yes_dollars_fp") bid c)) [
        | inl e ↦ rw (e, snapshot_levels) tt
        | inr (bids, e) ↦
            elim (Option-cases (read_levels lib std message (codes "no_dollars_fp") ask c)) [
              | inl f ↦ rw (e, f, snapshot_levels) tt
              | inr (asks, f) ↦
                  rw (e, f, snapshot_levels)
                    (
                      laws.sort_all _ IsWireLevel bids (
                          subst (If (All IsWireLevel)) e (read_levels-IsWireLevel message _ bid c)),
                      laws.sort_all _ IsWireLevel asks (
                          subst (If (All IsWireLevel)) f (read_levels-IsWireLevel message _ ask c)),
                    )
            ]
      ]

  after_both-IsWireResult {ℓ κ} :
      {A : Type ℓ} {B : Type κ} (h : A × Option WsParseError) (b : B × Option WsParseError)
      (f : A → B → Result MarketEvent WsParseError)
      → ((x : A) (y : B) → b.0 ≡ y → IsWireResult (f x y))
      → IsWireResult (after_both h b f)
  after_both-IsWireResult (a, some e) b f k = tt
  after_both-IsWireResult (a, none) (b, some e) f k = tt
  after_both-IsWireResult (a, none) (b, none) f k = k a b refl

  abbrev delta_or_error : Bytes → Result QuantityDelta DecimalParseError → WsReader QuantityDelta
  delta_or_error field (ok d) = return d
  delta_or_error field (failure e) = record_error invalid_quantity field (quantity_delta (pos 0))

  converted_range :
      (field text : Bytes) (r : Result QuantityDelta DecimalParseError) (o : Option WsParseError)
      → parse_quantity_delta text ≡ r
      → InRange 63 (delta_or_error field r o).0.units
  unfolding record_error
  converted_range field text (ok d) o e = parse_quantity_delta-range text d e
  converted_range field text (failure f) none e = (omega arith, omega arith)
  converted_range field text (failure f) (some x) e = (omega arith, omega arith)

  quantity_delta_field-range :
      (message : lib.Json) (field : Bytes) (o : Option WsParseError)
      → InRange 63 (quantity_delta_field lib message field o).0.units
  unfolding quantity_delta_field find_value record_error
  quantity_delta_field-range message field none = elim (Option-cases (lib.find message field)) [
    | inl e ↦ rw (e, find_value, quantity_delta_field) (omega arith, omega arith)
    | inr (value, e) ↦ elim (Option-cases (lib.as_string value)) [
      | inl f ↦ rw (e, f, find_value, quantity_delta_field) (omega arith, omega arith)
      | inr (text, f) ↦
          rw (e, f, find_value, quantity_delta_field) (converted_range field text _ none refl)
    ]
  ]
  quantity_delta_field-range message field (some x) = elim (Option-cases (lib.find message field)) [
    | inl e ↦ rw (e, find_value, quantity_delta_field) (omega arith, omega arith)
    | inr (value, e) ↦ elim (Option-cases (lib.as_string value)) [
      | inl f ↦ rw (e, f, find_value, quantity_delta_field) (omega arith, omega arith)
      | inr (text, f) ↦
          rw (e, f, find_value, quantity_delta_field) (converted_range field text _ (some x) refl)
    ]
  ]

  delta_fields-range :
      (message : lib.Json) → InRange 63 (delta_fields lib std message none).0.3.units
  unfolding delta_fields
  delta_fields-range message = quantity_delta_field-range message _ _

  parse_snapshot-IsWireResult :
      (root message : lib.Json) (c : PriceConvention)
      → IsWireResult (parse_snapshot lib std root message c)
  unfolding parse_snapshot
  parse_snapshot-IsWireResult root message c =
      after_both-IsWireResult (header_fields lib std root none) (ticker_field lib std message none)
        (snapshot_levels lib std message c) λ h t _. snapshot_levels-IsWireResult message c h t

  parse_delta-IsWireResult :
      (root message : lib.Json) (c : PriceConvention)
      → IsWireResult (parse_delta lib std root message c)
  unfolding parse_delta
  parse_delta-IsWireResult root message c =
      after_both-IsWireResult (header_fields lib std root none) (delta_fields lib std message none)
        _
        λ h b e.
          subst (λ (y : MarketTicker × BookSide × Price × QuantityDelta). InRange 63 y.3.units) e
            (delta_fields-range message)

  parse_trade-IsWireResult :
      (root message : lib.Json) → IsWireResult (parse_trade lib std root message)
  unfolding parse_trade
  parse_trade-IsWireResult root message =
      after_both-IsWireResult (integer_field lib root (codes "sid") none)
        (trade_fields lib std message _ none) (λ s t. ok (trade t)) λ h t _. tt

  parse_subscribed-IsWireResult :
      (root message : lib.Json) → IsWireResult (parse_subscribed lib std root message)
  unfolding parse_subscribed
  parse_subscribed-IsWireResult root message =
      after_both-IsWireResult (integer_field lib root (codes "id") none)
        (ack_fields lib std message none) _ λ h t _. tt

  parse_error-IsWireResult :
      (root message : lib.Json) → IsWireResult (parse_error lib std root message)
  unfolding parse_error
  parse_error-IsWireResult root message =
      after_both-IsWireResult ((integer_field lib root (codes "id") none).0, none)
        (error_fields lib std message none) _ λ h t _. tt

  parse_typed-IsWireResult :
      (type : Bytes) (root message : lib.Json) (c : PriceConvention)
      → IsWireResult (parse_typed lib std type root message c)
  unfolding parse_typed
  parse_typed-IsWireResult type root message c = ground (
    arith,
    parse_snapshot-IsWireResult root message c,
    parse_delta-IsWireResult root message c,
    parse_trade-IsWireResult root message,
    parse_subscribed-IsWireResult root message,
    parse_error-IsWireResult root message,
  )

  parse_with_type-IsWireResult :
      (type : Bytes) (root : lib.Json) (c : PriceConvention)
      → IsWireResult (parse_with_type lib std type root c)
  unfolding parse_with_type
  parse_with_type-IsWireResult type root c = elim (Option-cases (message_of lib std root)) [
    | inl e ↦ rw (e, parse_with_type) (ground arith)
    | inr (message, e) ↦ rw (e, parse_with_type) (parse_typed-IsWireResult type root message c)
  ]

  parse_root-IsWireResult :
      (root : lib.Json) (c : PriceConvention) → IsWireResult (parse_root lib std root c)
  unfolding parse_root
  parse_root-IsWireResult root c = elim (Option-cases (lib.find root (codes "type"))) [
    | inl e ↦ rw (e, parse_root) tt
    | inr (value, e) ↦ elim (Option-cases (lib.as_string value)) [
      | inl f ↦ rw (e, f, parse_root) tt
      | inr (type, f) ↦ rw (e, f, parse_root) (parse_with_type-IsWireResult type root c)
    ]
  ]

  parse_ws_message-IsWireResult :
      (text : Bytes) (c : PriceConvention) → IsWireResult (parse_ws_message lib std text c)
  unfolding parse_ws_message
  parse_ws_message-IsWireResult text c = elim (Option-cases (lib.parse text)) [
    | inl e ↦ rw (e, parse_ws_message) tt
    | inr (root, e) ↦ elim (Bool-cases (lib.is_object root)) [
      | inl f ↦ rw (e, f, parse_ws_message) (parse_root-IsWireResult root c)
      | inr f ↦ rw (e, f, parse_ws_message) tt
    ]
  ]

  -- Whatever text is read as an event under whatever convention, the order book may take it: the
  -- sizes of a snapshot and the change of a delta are `int64`, as the invariant of the book asks.
  pub parse_ws_message-IsWireEvent :
      (text : Bytes) (c : PriceConvention) (event : MarketEvent)
      → parse_ws_message lib std text c ≡ ok event
      → IsWireEvent event
  parse_ws_message-IsWireEvent text c event e =
      subst IsWireResult e (parse_ws_message-IsWireResult text c)
