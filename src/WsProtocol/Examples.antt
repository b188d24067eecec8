-- ===== src/WsProtocol/Examples.antt =====
-- A delta as the venue sends it, with a JSON library that reads one message and insertion sort.
use eventbook.Prelude.{
  ◌≡◌, refl, Bool, true, false, Option, none, some, List, [], ◌∷◌, All, if◌then◌else◌, Bytes,
  bytes_eq, codes, ok, Bool-cases, inl, inr,
}
use eventbook.Prelude.Int.{ℤ, pos, negsuc, neg_ℤ, ◌-ℤ◌}
use eventbook.Decimal.{parse_scaled_decimal, power_of_ten}
use eventbook.Price.{price, parse_price, yes_price_from_no}
use eventbook.Quantity.{quantity_delta, parse_quantity_delta}
use eventbook.Events.{ask, BookDelta, delta}
use eventbook.Json.{JsonLibrary}
use eventbook.WsProtocol.{StdSort, no_leg_pricing, yes_price_from_book_entry, book_side_from_string}
use eventbook.WsProtocol.FieldReader.{
  string_field, integer_field, price_field, quantity_delta_field, find_value, exchange_time,
}
use eventbook.WsProtocol.Messages.{
  parse_ws_message, parse_root, parse_with_type, parse_typed, parse_delta, delta_fields,
}
use eventbook.WsProtocol.Wire.{SortLaws, IsWireEvent, parse_ws_message-IsWireEvent}

abbrev insert : {A : Type 0} → (A → A → Bool) → A → List A → List A
insert lt x [] = x ∷ []
insert lt x (y ∷ ys) = let later = insert lt x ys in if lt y x then y ∷ later else x ∷ y ∷ ys

abbrev insertion_sort : {A : Type 0} → (A → A → Bool) → List A → List A
insertion_sort lt [] = []
insertion_sort lt (x ∷ xs) = insert lt x (insertion_sort lt xs)

insert-All :
    {A : Type 0} (lt : A → A → Bool) (P : A → Type 0) (x : A) (xs : List A)
    → P x
    → All P xs
    → All P (insert lt x xs)
insert-All lt P x [] h hs = (h, tt)
insert-All lt P x (y ∷ ys) h hs =
    let later = insert-All lt P x ys h hs.1 in
    elim (Bool-cases (lt y x)) [
      | inl e ↦ rw (e, insert) (hs.0, later)
      | inr e ↦ rw (e, insert) (h, hs)
    ]

insertion_sort-All :
    {A : Type 0} (lt : A → A → Bool) (P : A → Type 0) (xs : List A)
    → All P xs
    → All P (insertion_sort lt xs)
insertion_sort-All lt P [] h = tt
insertion_sort-All lt P (x ∷ xs) h =
    insert-All lt P x (insertion_sort lt xs) h.0 (insertion_sort-All lt P xs h.1)

abbrev std : StdSort
std = record { sort = insertion_sort }

std_laws : SortLaws std
std_laws = record { sort_all = insertion_sort-All }

data Json : Type 0 where
  root message : Json
  text : Bytes → Json
  number : ℤ → Json

abbrev field_of : Json → Bytes → Option Json
field_of root field =
    if bytes_eq field (codes "type")
    then some (text (codes "orderbook_delta"))
    else if bytes_eq field (codes "msg")
    then some message
    else some (number (pos 7))
field_of message field =
    if bytes_eq field (codes "side")
    then some (text (codes "no"))
    else if bytes_eq field (codes "price_dollars")
    then some (text (codes "0.3000"))
    else if bytes_eq field (codes "delta_fp")
    then some (text (codes "-2.00"))
    else if bytes_eq field (codes "market_ticker")
    then some (text (codes "FED-26"))
    else none
field_of (text s) field = none
field_of (number n) field = none

abbrev one_message : JsonLibrary
one_message = record {
  Json = Json;
  parse = λ s. some root;
  is_object = elim [ root ↦ true | message ↦ true | _ ↦ false ];
  is_null = λ v. false;
  as_string = elim [ text s ↦ some s | _ ↦ none ];
  as_bool = λ v. none;
  as_integer = elim [ number n ↦ some n | _ ↦ none ];
  as_unsigned = λ v. none;
  as_int = λ v. none;
  as_array = λ v. none;
  find = field_of;
}

-- An offer at a NO price of $0.30 rests at $0.70 on the YES scale.
abbrev read_delta : BookDelta
read_delta = record {
  market_ticker = record { value = codes "FED-26" };
  subscription = record { value = pos 7 };
  sequence = record { value = 7 };
  side = ask;
  price = price (pos 7000);
  delta = quantity_delta (negsuc 199);
  exchange_time = none;
}

delta_is_read : parse_ws_message one_message std (codes "{}") no_leg_pricing ≡ ok (delta read_delta)
unfolding parse_ws_message parse_root bytes_eq parse_with_type parse_typed parse_delta integer_field
    find_value delta_fields quantity_delta_field parse_quantity_delta parse_scaled_decimal
    price_field parse_price book_side_from_string string_field yes_price_from_book_entry neg_ℤ
    exchange_time yes_price_from_no ◌-ℤ◌ power_of_ten
delta_is_read = refl

parse_ws_message-IsWireEvent_example : IsWireEvent (delta read_delta)
parse_ws_message-IsWireEvent_example =
    parse_ws_message-IsWireEvent one_message std std_laws (codes "{}") no_leg_pricing
      (delta read_delta) delta_is_read
