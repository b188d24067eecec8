-- ===== src/Journal/Codec.antt =====
-- `encode_journal_record` and `decode_journal_record`. `std::to_string` is a parameter.
use eventbook.Prelude.{
  ℕ, ◌%◌, ◌^◌, ◌==◌, Bool, true, false, Option, none, some, if◌then◌else◌, Bytes, codes, Result, ok,
  failure, ◌>>=◌, or_fail,
}
use eventbook.Time.{exchange_time_from_epoch_micros, local_time_from_epoch_micros}
use eventbook.Json.{JsonLibrary}
use eventbook.Json.Writer.{
  Built, text, integer, unsigned, object, BuiltFields, stop, field, optional_field, JsonWriter,
}
use eventbook.Journal.{
  journal_version, JournalRecord, JournalRecordKind, kind_text, journal_record_kind_from_string,
  JournalError, JournalErrorKind, malformed_record, missing_field, unsupported_version,
}

-- The optional fields of the document that `encode_journal_record` builds.
abbrev pub optional_fields : JournalRecord → BuiltFields
optional_fields r =
    optional_field (codes "t_exchange_us") (λ t. integer t.micros) r.exchange_time
      (optional_field (codes "sid") (λ s. integer s.value) r.subscription
        (optional_field (codes "seq") (λ n. unsigned n.value) r.sequence
          (optional_field (codes "ticker") (λ t. text t.value) r.market_ticker
            (optional_field (codes "market_id") text r.market_id stop))))

-- All its fields.
abbrev pub record_fields : JournalRecord → BuiltFields
record_fields r = field (codes "v") (unsigned journal_version) (
    field (codes "kind") (text (kind_text r.kind)) (
      field (codes "t_local_us") (integer r.local_receive_time.micros) (
        field (codes "conn") (unsigned r.connection_id) (
          field (codes "type") (text r.message_type)
            (field (codes "payload") (text r.payload) (optional_fields r))))))

unfoldable pub record_document : JournalRecord → Built
record_document r = object (record_fields r)

-- `none` where `dump` throws.
unfoldable pub encode_journal_record : JsonWriter → JournalRecord → Option Bytes
encode_journal_record writer r = writer.dump (record_document r)

abbrev pub journal_error : JournalErrorKind → Bytes → JournalError
journal_error kind detail = record { kind = kind; line = 0; detail = detail }

abbrev pub map_option {ℓ κ} : {A : Type ℓ} {B : Type κ} → (A → B) → Option A → Option B
map_option f none = none
map_option f (some a) = some (f a)

module _ (lib : JsonLibrary) (document : lib.Json) where
  -- `document.find(name)` with a test of the JSON type; `none` where either fails.
  abbrev pub value_of : {A : Type 0} → (lib.Json → Option A) → Bytes → Option A
  value_of read name = elim (lib.find document name) [ none ↦ none | some value ↦ read value ]

  abbrev pub required : {A : Type 0} → (lib.Json → Option A) → Bytes → Result A JournalError
  required read name = or_fail (value_of read name) (journal_error missing_field name)

abbrev pub require {ℓ} : {E : Type ℓ} → Bool → E → Result (Unit {0}) E
require true e = ok tt
require false e = failure e

module _ (lib : JsonLibrary) (to_string : ℕ → Bytes) where
  -- The version is compared as a `uint32`.
  abbrev pub check_version : ℕ → Result (Unit {0}) JournalError
  check_version v =
      require (v % 2 ^ 32 == journal_version) (journal_error unsupported_version (to_string v))

  abbrev pub kind_named : Bytes → Result JournalRecordKind JournalError
  kind_named name =
      or_fail (journal_record_kind_from_string name) (journal_error malformed_record name)

  unfoldable pub decode_document : lib.Json → Result JournalRecord JournalError
  decode_document document = do
    version ← required lib document lib.as_unsigned (codes "v")
    _ ← check_version version
    kind_name ← required lib document lib.as_string (codes "kind")
    kind ← kind_named kind_name
    local_time ← required lib document lib.as_integer (codes "t_local_us")
    connection ← required lib document lib.as_unsigned (codes "conn")
    type ← required lib document lib.as_string (codes "type")
    payload ← required lib document lib.as_string (codes "payload")
    ok (record {
      kind = kind;
      local_receive_time = local_time_from_epoch_micros local_time;
      exchange_time =
          map_option exchange_time_from_epoch_micros
            (value_of lib document lib.as_integer (codes "t_exchange_us"));
      connection_id = connection;
      subscription =
          map_option (λ n. record { value = n })
            (value_of lib document lib.as_integer (codes "sid"));
      sequence =
          map_option (λ n. record { value = n })
            (value_of lib document lib.as_unsigned (codes "seq"));
      message_type = type;
      market_ticker =
          map_option (λ t. record { value = t })
            (value_of lib document lib.as_string (codes "ticker"));
      market_id = value_of lib document lib.as_string (codes "market_id");
      payload = payload;
    })

  unfoldable pub decode_journal_record : Bytes → Result JournalRecord JournalError
  decode_journal_record line = elim (lib.parse line) [
    | none ↦ failure (journal_error malformed_record (codes ""))
    | some document ↦
        if lib.is_object document
        then decode_document document
        else failure (journal_error malformed_record (codes ""))
  ]
