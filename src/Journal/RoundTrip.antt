-- ===== src/Journal/RoundTrip.antt =====
-- Encoding and decoding a record of the journal.
use eventbook.Prelude.{
  ℕ, ◌<◌, ◌^◌, ◌≡◌, refl, Bool, true, Option, none, some, Bytes, bytes_eq, codes, arith,
  Option-cases, inl, inr, subst, ap, ok,
}
use eventbook.Prelude.Int.{InRange}
use eventbook.Events.{ExchangeTimestamp, SubscriptionId, SequenceNumber, MarketTicker}
use eventbook.Time.{exchange_time_from_epoch_micros}
use eventbook.Events.{ExchangeTimestamp, SubscriptionId, SequenceNumber, MarketTicker}
use eventbook.Time.{exchange_time_from_epoch_micros}
use eventbook.Events.{ExchangeTimestamp, SubscriptionId, SequenceNumber, MarketTicker}
use eventbook.Time.{exchange_time_from_epoch_micros}
use eventbook.Json.{JsonLibrary}
use eventbook.Json.Writer.{
  Built, text, integer, unsigned, JsonWriter, JsonLaws, ReadsFields, lookup, AllTexts,
  AllTextsFields, is_ascii, BuiltFields, optional_field,
}
use eventbook.Journal.{JournalRecord, JournalRecordKind, kind_text, journal_record_kind_from_string}
use eventbook.Journal.Codec.{
  record_document, record_fields, encode_journal_record, decode_journal_record, decode_document,
  map_option,
}
use eventbook.Journal.Fields.{first_of, lookup-optional_field, value_of-lookup, value_of-optional}

pub kind_from_string-kind_text :
    (k : JournalRecordKind) → journal_record_kind_from_string (kind_text k) ≡ some k
unfolding journal_record_kind_from_string kind_text bytes_eq
kind_from_string-kind_text = elim [
  | JournalRecordKind.session_started ↦ refl
  | JournalRecordKind.message ↦ refl
  | JournalRecordKind.connection_lost ↦ refl
  | JournalRecordKind.gap_detected ↦ refl
  | JournalRecordKind.snapshot_applied ↦ refl
  | JournalRecordKind.session_ended ↦ refl
]

module _ (r : JournalRecord) where
  lookup_exchange_time :
      lookup (codes "t_exchange_us") (record_fields r)
      ≡ first_of true (λ t. integer t.micros) r.exchange_time none
  unfolding bytes_eq
  lookup_exchange_time = simp lookup-optional_field

  lookup_subscription :
      lookup (codes "sid") (record_fields r)
      ≡ first_of true (λ s. integer s.value) r.subscription none
  unfolding bytes_eq
  lookup_subscription = simp lookup-optional_field

  lookup_sequence :
      lookup (codes "seq") (record_fields r) ≡ first_of true (λ n. unsigned n.value) r.sequence none
  unfolding bytes_eq
  lookup_sequence = simp lookup-optional_field

  lookup_market_ticker :
      lookup (codes "ticker") (record_fields r)
      ≡ first_of true (λ t. text t.value) r.market_ticker none
  unfolding bytes_eq
  lookup_market_ticker = simp lookup-optional_field

  lookup_market_id :
      lookup (codes "market_id") (record_fields r) ≡ first_of true text r.market_id none
  unfolding bytes_eq
  lookup_market_id = simp lookup-optional_field

-- Numbers that fit in the types of their fields.
abbrev pub OfOption : {A : Type 0} → (A → Type 0) → Option A → Type 0
OfOption P none = Unit
OfOption P (some a) = P a

abbrev pub IsMachineRecord : JournalRecord → Type 0
IsMachineRecord r =
    InRange 63 r.local_receive_time.micros
    × (r.connection_id < 2 ^ 64)
    × OfOption (λ t. InRange 63 t.micros) r.exchange_time
    × OfOption (λ s. InRange 63 s.value) r.subscription
    × OfOption (λ n. n.value < 2 ^ 64) r.sequence

map_option_inverse :
    {A B : Type 0} (f : A → B) (g : B → A) (inverse : (a : A) → g (f a) ≡ a) (o : Option A)
    → map_option g (map_option f o) ≡ o
map_option_inverse f g inverse none = refl
map_option_inverse f g inverse (some a) = ap some (inverse a)

map_option_same : (o : Option Bytes) → map_option (λ t. t) o ≡ o
map_option_same none = refl
map_option_same (some a) = refl

decode_document-fields :
    (lib : JsonLibrary) (to_string : ℕ → Bytes) (document : lib.Json) (r : JournalRecord)
    → IsMachineRecord r
    → ReadsFields lib (lib.find document) (record_fields r)
    → decode_document lib to_string document ≡ ok r
unfolding decode_document bytes_eq
decode_document-fields lib to_string document r (local, conn, exch, sub, seq) h =
    let version =
      value_of-lookup lib document (record_fields r) h lib.as_unsigned (codes "v") (unsigned 1) 1
        refl (λ j e. e (omega arith)) in
    let kind =
      value_of-lookup lib document (record_fields r) h lib.as_string (codes "kind")
        (text (kind_text r.kind)) (kind_text r.kind) refl (λ j e. e) in
    let time =
      value_of-lookup lib document (record_fields r) h lib.as_integer (codes "t_local_us")
        (integer r.local_receive_time.micros) (r.local_receive_time.micros) refl
        (λ j e. e.0 local) in
    let connection =
      value_of-lookup lib document (record_fields r) h lib.as_unsigned (codes "conn")
        (unsigned r.connection_id) r.connection_id refl (λ j e. e conn) in
    let type =
      value_of-lookup lib document (record_fields r) h lib.as_string (codes "type")
        (text r.message_type) r.message_type refl (λ j e. e) in
    let payload =
      value_of-lookup lib document (record_fields r) h lib.as_string (codes "payload")
        (text r.payload) r.payload refl (λ j e. e) in
    let exchange =
      value_of-optional lib document (record_fields r) h lib.as_integer (codes "t_exchange_us")
        (λ t. integer t.micros) (λ t. t.micros) r.exchange_time (lookup_exchange_time r)
        (λ t e j k. k.0 (subst (OfOption (λ t. InRange 63 t.micros)) e exch)) in
    let sid =
      value_of-optional lib document (record_fields r) h lib.as_integer (codes "sid")
        (λ s. integer s.value) (λ t. t.value) r.subscription (lookup_subscription r)
        (λ t e j k. k.0 (subst (OfOption (λ s. InRange 63 s.value)) e sub)) in
    let sequence =
      value_of-optional lib document (record_fields r) h lib.as_unsigned (codes "seq")
        (λ n. unsigned n.value) (λ t. t.value) r.sequence (lookup_sequence r)
        (λ t e j k. k (subst (OfOption (λ n. n.value < 2 ^ 64)) e seq)) in
    let ticker =
      value_of-optional lib document (record_fields r) h lib.as_string (codes "ticker")
        (λ t. text t.value) (λ t. t.value) r.market_ticker (lookup_market_ticker r)
        (λ t e j k. k) in
    let market =
      value_of-optional lib document (record_fields r) h lib.as_string (codes "market_id") text
        (λ t. t) r.market_id (lookup_market_id r) (λ t e j k. k) in
    rw
      (
        version,
        kind,
        time,
        connection,
        type,
        payload,
        exchange,
        sid,
        sequence,
        ticker,
        market,
        kind_from_string-kind_text r.kind,
        map_option_inverse (λ (t : ExchangeTimestamp). t.micros) exchange_time_from_epoch_micros
            (λ t. refl) r.exchange_time,
        map_option_inverse (λ (t : SubscriptionId). t.value) (λ n. record { value = n }) (λ t. refl)
            r.subscription,
        map_option_inverse (λ (t : SequenceNumber). t.value) (λ n. record { value = n }) (λ t. refl)
            r.sequence,
        map_option_inverse (λ (t : MarketTicker). t.value) (λ n. record { value = n }) (λ t. refl)
            r.market_ticker,
        map_option_same r.market_id,
      )
      refl

-- Texts that `dump` accepts.
abbrev pub IsUtf8Record : (Bytes → Bool) → JournalRecord → Type 0
IsUtf8Record is_utf8 r =
    (is_utf8 r.message_type ≡ true)
    × (is_utf8 r.payload ≡ true)
    × OfOption (λ t. is_utf8 t.value ≡ true) r.market_ticker
    × OfOption (λ m. is_utf8 m ≡ true) r.market_id

kind_text_ascii : (k : JournalRecordKind) → is_ascii (kind_text k) ≡ true
unfolding kind_text
kind_text_ascii = elim [
  | JournalRecordKind.session_started ↦ refl
  | JournalRecordKind.message ↦ refl
  | JournalRecordKind.connection_lost ↦ refl
  | JournalRecordKind.gap_detected ↦ refl
  | JournalRecordKind.snapshot_applied ↦ refl
  | JournalRecordKind.session_ended ↦ refl
]

AllTexts-optional_field :
    {A : Type 0} (P : Bytes → Type 0) (key : Bytes) (build : A → Built) (o : Option A)
    (fields : BuiltFields)
    → OfOption (λ a. AllTexts P (build a)) o
    → AllTextsFields P fields
    → AllTextsFields P (optional_field key build o fields)
AllTexts-optional_field P key build none fields h hs = hs
AllTexts-optional_field P key build (some a) fields h hs = (h, hs)

OfOption-always : {A : Type 0} (o : Option A) → OfOption (λ a. Unit {0}) o
OfOption-always none = tt
OfOption-always (some a) = tt

module _ (lib : JsonLibrary) (writer : JsonWriter) (laws : JsonLaws lib writer)
    (to_string : ℕ → Bytes) where
  record_document-texts :
      (r : JournalRecord)
      → IsUtf8Record writer.is_utf8 r
      → AllTexts (λ s. writer.is_utf8 s ≡ true) (record_document r)
  unfolding record_document
  record_document-texts r (type, payload, ticker, market) =
      let utf8 = λ (s : Bytes). writer.is_utf8 s ≡ true in
      (
        tt,
        (
          laws.ascii_is_utf8 (kind_text r.kind) (kind_text_ascii r.kind),
          (
            tt,
            (
              tt,
              (
                type,
                (
                  payload,
                  AllTexts-optional_field utf8 _ (λ t. integer t.micros) r.exchange_time _
                      (OfOption-always r.exchange_time)
                      (AllTexts-optional_field utf8 _ (λ s. integer s.value) r.subscription _
                        (OfOption-always r.subscription)
                        (AllTexts-optional_field utf8 _ (λ n. unsigned n.value) r.sequence _
                          (OfOption-always r.sequence)
                          (AllTexts-optional_field utf8 _ (λ t. text t.value) r.market_ticker _
                            ticker (AllTexts-optional_field utf8 _ text r.market_id _ market tt)))),
                ),
              ),
            ),
          ),
        ),
      )

  -- Every line that a record with machine-sized numbers is encoded to decodes to that record.
  pub decode-encode :
      (r : JournalRecord) (line : Bytes)
      → IsMachineRecord r
      → encode_journal_record writer r ≡ some line
      → decode_journal_record lib to_string line ≡ ok r
  unfolding decode_journal_record encode_journal_record record_document
  decode-encode r line machine h =
      let (document, parsed, (is_object, reading)) = laws.parse-dump (record_document r) line h in
      rw (parsed, decode_journal_record, is_object)
        (decode_document-fields lib to_string document r machine reading)

  -- A record whose numbers fit their types and whose texts are UTF-8 is encoded to a line, and the line
  -- decodes to that record.
  pub encode-decode :
      (r : JournalRecord)
      → IsMachineRecord r
      → IsUtf8Record writer.is_utf8 r
      → (line : Bytes) × (encode_journal_record writer r ≡ some line)
        × (decode_journal_record lib to_string line ≡ ok r)
  unfolding encode_journal_record
  encode-decode r machine utf8 = elim (Option-cases (encode_journal_record writer r)) [
    | inl e ↦ let there = laws.dump_total (record_document r) (record_document-texts r utf8) in cc
    | inr (line, e) ↦ (line, e, decode-encode r line machine e)
  ]
