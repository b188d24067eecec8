-- ===== src/Market/FirstFailure.antt =====
-- A market that is read field by field with the first error kept, against one that is read with a
-- check after every field.
use eventbook.Prelude.{
  ◌≡◌, refl, ap, ◌∙◌, Option, none, some, List, [], if◌then◌else◌, Bytes, codes, Result, ok,
  failure, ◌>>=◌, or_fail, arith,
}
use eventbook.Price.{Price, PriceRange, parse_price}
use eventbook.Quantity.{Quantity, parse_quantity}
use eventbook.Events.{ExchangeTimestamp}
use eventbook.Time.{parse_rfc3339}
use eventbook.Json.{JsonLibrary}
use eventbook.Market.{
  Market, MarketParseError, MarketParseErrorKind, missing_field, wrong_field_type, invalid_price,
  invalid_quantity, not_an_object, invalid_timestamp, invalid_price_range,
  market_status_from_string,
}
use eventbook.Market.FieldReader.{
  Reader, parse_error, find_value, record_error, string_field, bool_field, price_field,
  quantity_field, checked, is_absent, return, timestamp_field, optional_timestamp_field,
  optional_string_field, price_ranges_field, read_bands,
}
use eventbook.Market.Reading.{read_fields, read_market}

-- A failed conversion, with the kind and the field of the failure.
abbrev pub converted {ℓ κ} :
    {A : Type ℓ} {E : Type κ}
    → MarketParseErrorKind
    → Bytes
    → Result A E
    → Result A MarketParseError
converted kind field (ok a) = ok a
converted kind field (failure e) = failure (parse_error kind field)

module _ (lib : JsonLibrary) (object : lib.Json) where
  -- The value of a field that must be there and have its JSON type.
  abbrev pub required : {A : Type 0} → (lib.Json → Option A) → Bytes → Result A MarketParseError
  required read field = do
    value ← or_fail (lib.find object field) (parse_error missing_field field)
    or_fail (read value) (parse_error wrong_field_type field)

  abbrev pub text_value : Bytes → Result Bytes MarketParseError
  text_value field = required lib.as_string field

  abbrev pub price_value : Bytes → Result Price MarketParseError
  price_value field = text_value field >>= λ s. converted invalid_price field (parse_price s)

  abbrev pub quantity_value : Bytes → Result Quantity MarketParseError
  quantity_value field =
      text_value field >>= λ s. converted invalid_quantity field (parse_quantity s)

  abbrev pub time_value : Bytes → Result ExchangeTimestamp MarketParseError
  time_value field = text_value field >>= λ s. converted invalid_timestamp field (parse_rfc3339 s)

  abbrev pub optional_value :
      {A : Type 0} → Bytes → Result A MarketParseError → Result (Option A) MarketParseError
  optional_value field value =
      if is_absent lib object field then ok none else (value >>= λ a. ok (some a))

  abbrev pub ranges_value : Bytes → Result (List PriceRange) MarketParseError
  ranges_value field = required lib.as_array field >>= λ elements.
      or_fail (read_bands lib elements) (parse_error invalid_price_range field)

  -- The fields of a market, one after another, the first failure returned at once.
  abbrev pub fields_spec : Result Market MarketParseError
  fields_spec = do
    ticker ← text_value (codes "ticker")
    event_ticker ← text_value (codes "event_ticker")
    market_type ← text_value (codes "market_type")
    status ← text_value (codes "status")
    price_level_structure ← text_value (codes "price_level_structure")
    price_ranges ← ranges_value (codes "price_ranges")
    open_time ← time_value (codes "open_time")
    close_time ← time_value (codes "close_time")
    expected_expiration_time ←
        optional_value (codes "expected_expiration_time")
          (time_value (codes "expected_expiration_time"))
    mve_collection_ticker ←
        optional_value (codes "mve_collection_ticker") (text_value (codes "mve_collection_ticker"))
    yes_bid ← price_value (codes "yes_bid_dollars")
    yes_ask ← price_value (codes "yes_ask_dollars")
    yes_bid_size ← quantity_value (codes "yes_bid_size_fp")
    yes_ask_size ← quantity_value (codes "yes_ask_size_fp")
    last_price ← price_value (codes "last_price_dollars")
    volume ← quantity_value (codes "volume_fp")
    volume_24h ← quantity_value (codes "volume_24h_fp")
    open_interest ← quantity_value (codes "open_interest_fp")
    can_close_early ← required lib.as_bool (codes "can_close_early")
    ok (record {
      ticker = record { value = ticker };
      event_ticker = record { value = event_ticker };
      market_type = market_type;
      status = market_status_from_string status;
      price_level_structure = price_level_structure;
      price_ranges = price_ranges;
      open_time = open_time;
      close_time = close_time;
      expected_expiration_time = expected_expiration_time;
      mve_collection_ticker = mve_collection_ticker;
      yes_bid = yes_bid;
      yes_ask = yes_ask;
      yes_bid_size = yes_bid_size;
      yes_ask_size = yes_ask_size;
      last_price = last_price;
      volume = volume;
      volume_24h = volume_24h;
      open_interest = open_interest;
      can_close_early = can_close_early;
    })

abbrev pub bind {ℓ κ} : {A : Type ℓ} {B : Type κ} → Reader A → (A → Reader B) → Reader B
bind m f error = f (m error).0 (m error).1

-- A reader agrees with a result: without an error so far it ends as the result does, and an error
-- that is there already stays.
record Agrees {ℓ} {A : Type ℓ} (m : Reader A) (r : Result A MarketParseError) : Type ℓ where
  fresh : checked (m none) ≡ r
  kept : (e : MarketParseError) → (m (some e)).1 ≡ some e

kept_error {ℓ} :
    {B : Type ℓ} {e : MarketParseError} (q : B × Option MarketParseError)
    → q.1 ≡ some e
    → checked q ≡ failure e
kept_error (b, none) k = cc
kept_error (b, some e') k = cc

checked_bind {ℓ κ} :
    {A : Type ℓ} {B : Type κ} (p : A × Option MarketParseError) (f : A → Reader B)
    (s : A → Result B MarketParseError)
    → ((a : A) → Agrees (f a) (s a))
    → checked (f p.0 p.1) ≡ (checked p >>= s)
checked_bind (a, none) f s h = (h a).fresh
checked_bind (a, some e) f s h = kept_error (f a (some e)) ((h a).kept e)

bind-Agrees {ℓ κ} :
    {A : Type ℓ} {B : Type κ} {m : Reader A} {r : Result A MarketParseError} {f : A → Reader B}
    {s : A → Result B MarketParseError}
    → Agrees m r
    → ((a : A) → Agrees (f a) (s a))
    → Agrees (bind m f) (r >>= s)
bind-Agrees {m = m} {f = f} {s = s} h k = record {
  fresh = checked_bind (m none) f s k ∙ ap (λ r. r >>= s) h.fresh;
  kept = λ e. ap (λ o. (f (m (some e)).0 o).1) (h.kept e) ∙ (k (m (some e)).0).kept e;
}

return-Agrees {ℓ} : {A : Type ℓ} (a : A) → Agrees (return a) (ok a)
return-Agrees a = record { fresh = refl; kept = λ e. refl }

module _ (lib : JsonLibrary) (object : lib.Json) where
  string_field-Agrees :
      (field : Bytes) → Agrees (string_field lib object field) (text_value lib object field)
  unfolding string_field find_value record_error
  string_field-Agrees field = record { fresh = ground arith; kept = λ e. ground arith }

  bool_field-Agrees :
      (field : Bytes) → Agrees (bool_field lib object field) (required lib object lib.as_bool field)
  unfolding bool_field find_value record_error
  bool_field-Agrees field = record { fresh = ground arith; kept = λ e. ground arith }

  price_field-Agrees :
      (field : Bytes) → Agrees (price_field lib object field) (price_value lib object field)
  unfolding price_field find_value record_error
  price_field-Agrees field = record { fresh = ground arith; kept = λ e. ground arith }

  quantity_field-Agrees :
      (field : Bytes) → Agrees (quantity_field lib object field) (quantity_value lib object field)
  unfolding quantity_field find_value record_error
  quantity_field-Agrees field = record { fresh = ground arith; kept = λ e. ground arith }

  timestamp_field-Agrees :
      (field : Bytes) → Agrees (timestamp_field lib object field) (time_value lib object field)
  unfolding timestamp_field find_value record_error
  timestamp_field-Agrees field = record { fresh = ground arith; kept = λ e. ground arith }

  price_ranges_field-Agrees :
      (field : Bytes) → Agrees (price_ranges_field lib object field) (ranges_value lib object field)
  unfolding price_ranges_field find_value record_error
  price_ranges_field-Agrees field = record { fresh = ground arith; kept = λ e. ground arith }

  optional_timestamp_field-Agrees :
      (field : Bytes)
      → Agrees
          (optional_timestamp_field lib object field)
          (optional_value lib object field (time_value lib object field))
  unfolding optional_timestamp_field timestamp_field find_value record_error
  optional_timestamp_field-Agrees field = record { fresh = ground arith; kept = λ e. ground arith }

  optional_string_field-Agrees :
      (field : Bytes)
      → Agrees
          (optional_string_field lib object field)
          (optional_value lib object field (text_value lib object field))
  unfolding optional_string_field string_field find_value record_error
  optional_string_field-Agrees field = record { fresh = ground arith; kept = λ e. ground arith }

  read_fields-Agrees : Agrees (read_fields lib object) (fields_spec lib object)
  unfolding read_fields
  read_fields-Agrees = bind-Agrees (string_field-Agrees (codes "ticker")) λ ticker.
      bind-Agrees (string_field-Agrees (codes "event_ticker")) λ event_ticker.
        bind-Agrees (string_field-Agrees (codes "market_type")) λ market_type.
          bind-Agrees (string_field-Agrees (codes "status")) λ status.
            bind-Agrees (string_field-Agrees (codes "price_level_structure"))
              λ price_level_structure.
                bind-Agrees (price_ranges_field-Agrees (codes "price_ranges")) λ price_ranges.
                  bind-Agrees (timestamp_field-Agrees (codes "open_time")) λ open_time.
                    bind-Agrees (timestamp_field-Agrees (codes "close_time")) λ close_time.
                      bind-Agrees
                        (optional_timestamp_field-Agrees (codes "expected_expiration_time"))
                        λ expected_expiration_time.
                          bind-Agrees (optional_string_field-Agrees (codes "mve_collection_ticker"))
                            λ mve_collection_ticker.
                              bind-Agrees (price_field-Agrees (codes "yes_bid_dollars")) λ yes_bid.
                                bind-Agrees (price_field-Agrees (codes "yes_ask_dollars"))
                                  λ yes_ask.
                                    bind-Agrees (quantity_field-Agrees (codes "yes_bid_size_fp"))
                                      λ yes_bid_size.
                                        bind-Agrees
                                          (quantity_field-Agrees (codes "yes_ask_size_fp"))
                                          λ yes_ask_size.
                                            bind-Agrees
                                              (price_field-Agrees (codes "last_price_dollars"))
                                              λ last_price.
                                                bind-Agrees
                                                  (quantity_field-Agrees (codes "volume_fp"))
                                                  λ volume.
                                                    bind-Agrees
                                                      (quantity_field-Agrees
                                                        (codes "volume_24h_fp"))
                                                      λ volume_24h.
                                                        bind-Agrees
                                                          (quantity_field-Agrees
                                                            (codes "open_interest_fp"))
                                                          λ open_interest.
                                                            bind-Agrees
                                                            (bool_field-Agrees
                                                            (codes "can_close_early"))
                                                            λ can_close_early. return-Agrees _

  -- Reading a market with the first error kept and asked for at the end gives what reading it with a
  -- check after every field gives: the market when every field is right, and otherwise the kind and
  -- the name of the first field, in the order of the source, that is missing, of a wrong JSON type
  -- or not convertible. What is no object is refused before.
  pub read_market-fields_spec : read_market lib object ≡ (
      if lib.is_object object
      then fields_spec lib object
      else failure (parse_error not_an_object []))
  unfolding read_market
  read_market-fields_spec = ground (arith, read_fields-Agrees.fresh)
