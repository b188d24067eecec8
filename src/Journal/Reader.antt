-- ===== src/Journal/Reader.antt =====
-- `JournalReader`: `open`'s test for zstd, the line that a call of `next` takes, `next`, and the
-- reading of a file to its end.
use eventbook.Prelude.{
  ℕ, zero, suc, Bool, false, not, ◌&&◌, has_value, Option, none, some, List, [], ◌∷◌, if◌then◌else◌,
  Bytes, bytes_eq, codes, Result, ok, failure,
}
use eventbook.MarketState.{increment}
use eventbook.Json.{JsonLibrary}
use eventbook.Journal.{JournalRecord, JournalError, read_failed, cannot_open, decompression_failed}
use eventbook.Journal.Codec.{decode_journal_record}
use eventbook.Journal.Lines.{
  split_line, getline, take, Decompressor, LineRead, line, finished, failed, CompressedSource,
  next_compressed_line,
}

abbrev pub zstd_magic : Bytes
zstd_magic = 40 ∷ 181 ∷ 47 ∷ 253 ∷ []

unfoldable pub is_zstd : Bytes → Bool
is_zstd file = bytes_eq (take 4 file) zstd_magic

-- A plain file: what is left of it, and whether reading past that fails.
pub record PlainSource : Type 0 where
  pub text : Bytes
  pub is_bad : Bool

unfoldable pub next_plain_line : PlainSource → LineRead PlainSource
next_plain_line s =
    if s.is_bad && not (has_value (split_line s.text).1)
    then failed read_failed [] s
    else elim (getline s.text) [ none ↦ finished s | some l ↦ line l.0 (record s { text = l.1 }) ]

module _ (zstd : Decompressor) where
  pub data Source : Type 0 where
    plain : PlainSource → Source
    compressed : CompressedSource zstd → Source

  pub record JournalReader : Type 0 where
    pub source : Source
    pub line_number : ℕ

  abbrev pub from_source : {S : Type 0} → (S → Source) → LineRead S → LineRead Source
  from_source inject (line l s) = line l (inject s)
  from_source inject (finished s) = finished (inject s)
  from_source inject (failed kind detail s) = failed kind detail (inject s)

  -- `open`: what opening the path gave, and what `ZSTD_createDCtx` gave.
  unfoldable pub open_reader :
      Bytes → Option PlainSource → Option zstd.Context → Result JournalReader JournalError
  open_reader path none context = failure (record { kind = cannot_open; line = 0; detail = path })
  open_reader path (some file) context =
      if is_zstd file.text
      then elim context [
        | none ↦
            failure (record { kind = decompression_failed; line = 0; detail = codes "no context" })
        | some c ↦ ok (record {
          source = compressed (record {
            stream = record { context = c; file = file.text; input = [] };
            decoded = [];
            source_exhausted = false;
          });
          line_number = 0;
        })
      ]
      else ok (record { source = plain file; line_number = 0 })

  -- `turns` bounds the loop of `next_compressed_line`.
  module _ (lib : JsonLibrary) (to_string : ℕ → Bytes) (turns : ℕ) where
    unfoldable pub next_line : Source → Option (LineRead Source)
    next_line (plain s) = some (from_source plain (next_plain_line s))
    next_line (compressed s) = elim (next_compressed_line zstd turns s) [
      | none ↦ none
      | some read ↦ some (from_source compressed read)
    ]

    abbrev pub at_line :
        ℕ → Result JournalRecord JournalError → Result (Option JournalRecord) JournalError
    at_line n (ok r) = ok (some r)
    at_line n (failure e) = failure (record e { line = n })

    -- One line for each unit of the first argument; `none` where they, or the turns, do not suffice.
    unfoldable pub next :
        ℕ → JournalReader → Option (Result (Option JournalRecord) JournalError × JournalReader)
    next zero r = none
    next (suc n) r = elim (next_line r.source) [
      | none ↦ none
      | some read ↦ elim read [
        | failed kind detail s ↦ some (
          failure (record { kind = kind; line = r.line_number; detail = detail }),
          record r { source = s },
        )
        | finished s ↦ some (ok none, record r { source = s })
        | line l s ↦
            let r' : JournalReader = record { source = s; line_number = increment r.line_number } in
            elim l [
              | [] ↦ next n r'
              | c ∷ t ↦
                  some (at_line r'.line_number (decode_journal_record lib to_string (c ∷ t)), r')
            ]
      ]
    ]

    abbrev pub prepend :
        JournalRecord
        → Option (List JournalRecord × Option JournalError)
        → Option (List JournalRecord × Option JournalError)
    prepend r none = none
    prepend r (some (rs, e)) = some (r ∷ rs, e)

    abbrev pub after_next :
        (JournalReader → Option (List JournalRecord × Option JournalError))
        → Option (Result (Option JournalRecord) JournalError × JournalReader)
        → Option (List JournalRecord × Option JournalError)
    after_next rest none = none
    after_next rest (some (failure e, r)) = some ([], some e)
    after_next rest (some (ok none, r)) = some ([], none)
    after_next rest (some (ok (some entry), r)) = prepend entry (rest r)

    -- The loop of a caller that reads to the end: the records, and the error that stopped it.
    unfoldable pub read_records :
        ℕ → JournalReader → Option (List JournalRecord × Option JournalError)
    read_records zero r = none
    read_records (suc n) r = after_next (read_records n) (next (suc n) r)
