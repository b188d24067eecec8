-- ===== src/Journal/WriteRead.antt =====
-- A file of encoded records, one to a line, and the records that are read from it.
use eventbook.Prelude.{
  ℕ, ◌+◌, ◌≤◌, ◌<◌, ◌==◌, ◌≡◌, refl, true, false, none, some, List, [], ◌∷◌, length, All, Bytes, ok,
  arith, ap, ◌∙◌,
}
use eventbook.MarketState.{increment}
use eventbook.Json.{JsonLibrary}
use eventbook.Json.Writer.{JsonWriter, JsonLaws, newline}
use eventbook.Journal.{JournalRecord}
use eventbook.Journal.Codec.{encode_journal_record, record_document}
use eventbook.Journal.RoundTrip.{IsMachineRecord, decode-encode}
use eventbook.Journal.Lines.{Decompressor, CompressedSource}
use eventbook.Journal.Decompress.{StreamLaws, compressed-lines}
use eventbook.Journal.Reader.{
  PlainSource, is_zstd, plain, compressed, JournalReader, open_reader, read_records,
}
use eventbook.Journal.Reading.{
  unlines, unlines-IsLines, plain-Takes, records_of, read_records-records_of,
}

-- The lines encode the records.
abbrev pub Encodes : JsonWriter → List JournalRecord → List Bytes → Type 0
Encodes writer [] [] = Unit
Encodes writer (r ∷ rs) (l ∷ ls) = (encode_journal_record writer r ≡ some l) × Encodes writer rs ls
Encodes writer _ _ = ⊥

module _ (lib : JsonLibrary) (writer : JsonWriter) (laws : JsonLaws lib writer)
    (to_string : ℕ → Bytes) where
  Encodes-one_line :
      (rs : List JournalRecord) (ls : List Bytes)
      → Encodes writer rs ls
      → All (λ l. All (λ c. (c == newline) ≡ false) l) ls
  unfolding encode_journal_record
  Encodes-one_line [] [] h = tt
  Encodes-one_line [] (l ∷ ls) h = absurd h
  Encodes-one_line (r ∷ rs) [] h = absurd h
  Encodes-one_line (r ∷ rs) (l ∷ ls) h =
      ((laws.dump_one_line (record_document r) l h.0).0, Encodes-one_line rs ls h.1)

  module _ (zstd : Decompressor) (turns : ℕ) where
    records_of-Encodes :
        (rs : List JournalRecord) (ls : List Bytes) (n : ℕ)
        → Encodes writer rs ls
        → All IsMachineRecord rs
        → records_of zstd lib to_string turns n ls ≡ (rs, none)
    unfolding encode_journal_record
    records_of-Encodes [] [] n h machine = refl
    records_of-Encodes [] (l ∷ ls) n h machine = absurd h
    records_of-Encodes (r ∷ rs) [] n h machine = absurd h
    records_of-Encodes (r ∷ rs) ([] ∷ ls) n h machine =
        absurd (omega (arith, (laws.dump_one_line (record_document r) [] h.0).1))
    records_of-Encodes (r ∷ rs) ((c ∷ t) ∷ ls) n h machine =
        rw
          (
            records_of,
            decode-encode lib writer laws to_string r (c ∷ t) machine.0 h.0,
            records_of-Encodes rs ls (increment n) h.1 machine.1,
          )
          refl

    -- A plain file of encoded records is read to those records and nothing else.
    pub read_plain-Encodes :
        (rs : List JournalRecord) (ls : List Bytes) (n line_number : ℕ)
        → Encodes writer rs ls
        → All IsMachineRecord rs
        → length ls < n
        → read_records zstd lib to_string turns n (record {
          source = plain (record { text = unlines ls; is_bad = false });
          line_number = line_number;
        })
          ≡ some (rs, none)
    read_plain-Encodes rs ls n line_number h machine fuel =
        read_records-records_of zstd lib to_string turns ls n _
          (plain-Takes zstd lib to_string turns ls (unlines ls)
            (unlines-IsLines ls (Encodes-one_line rs ls h)))
          fuel
        ∙ ap some (records_of-Encodes rs ls line_number h machine)

    -- A file with the magic number of zstd, for whose bytes a new context yields encoded records, one to a
    -- line, keeping none of the text back once it has taken all of them, is opened and read to those
    -- records and nothing else, in whatever pieces zstd takes the bytes and hands out the text, where
    -- there are two turns more than its bytes and the bytes of its text.
    pub read_compressed-Encodes :
        (stream : StreamLaws zstd) (rs : List JournalRecord) (ls : List Bytes) (n : ℕ)
        (path : Bytes) (file : PlainSource) (context : zstd.Context)
        → Encodes writer rs ls
        → All IsMachineRecord rs
        → is_zstd file.text ≡ true
        → stream.Yields context file.text (unlines ls)
        → length file.text + length (unlines ls) + 2 ≤ turns
        → length ls < n
        → (r : JournalReader zstd) × (open_reader zstd path (some file) (some context) ≡ ok r)
          × (read_records zstd lib to_string turns n r ≡ some (rs, none))
    unfolding open_reader
    read_compressed-Encodes stream rs ls n path file context h machine magic yields enough fuel =
        let s : CompressedSource zstd = record {
          stream = record { context = context; file = file.text; input = [] };
          decoded = [];
          source_exhausted = false;
        } in
        let lines =
          compressed-lines zstd stream lib to_string turns ls s (unlines ls) refl yields
            (omega arith) (unlines-IsLines ls (Encodes-one_line rs ls h)) in
        (
          record { source = compressed s; line_number = 0 },
          rw magic refl,
          read_records-records_of zstd lib to_string turns ls n _ lines fuel
              ∙ ap some (records_of-Encodes rs ls 0 h machine),
        )
