-- ===== src/Journal/Examples.antt =====
-- A record of the journal, with the token form of JSON, a zstd whose frames hold the plain text, and a
-- disk that takes all.
use eventbook.Prelude.{
  ℕ, zero, suc, ◌+◌, length, Result, bytes_eq, ◌≡◌, refl, ◌⊎◌, ◌≤◌, true, false, Option, none, some,
  List, [], ◌∷◌, ◌++◌, Bytes, codes, sym, append_assoc, ok, arith,
}
use eventbook.Prelude.Int.{pos}
use eventbook.Json.Tokens.{token_json, token_writer, token_laws}
use eventbook.Journal.{JournalRecord, message}
use eventbook.Journal.Codec.{encode_journal_record, decode_journal_record, record_document}
use eventbook.Journal.RoundTrip.{IsMachineRecord, encode-decode}
use eventbook.Journal.Lines.{Decompressor, CompressedSource, drop, getline, split_line}
use eventbook.Journal.Decompress.{StreamLaws, compressed-lines}
use eventbook.Journal.Reader.{
  zstd_magic, is_zstd, PlainSource, compressed, JournalReader, open_reader, read_records,
}
use eventbook.Journal.Reading.{unlines, Takes}
use eventbook.Journal.Writer.{
  Platform, Writer, JournalWriterConfig, default_config, fresh_writer, no_writer_stats, create,
  open_segment, free_candidate, candidate, flush, write_line,
}
use eventbook.Journal.Ledger.{AllStored, lines_of}
use eventbook.Journal.Accounts.{BlockLog, Accounted, write_line-Accounted}
use eventbook.Journal.NothingLost.{create-Accounted, write_lines, flush-write_lines}
use eventbook.Journal.Segments.{free_candidate-is_first}
use eventbook.Journal.WriteRead.{read_compressed-Encodes}

abbrev one_record : JournalRecord
one_record = record {
  kind = message;
  local_receive_time = record { micros = pos 5 };
  exchange_time = none;
  connection_id = 1;
  subscription = some (record { value = pos 7 });
  sequence = none;
  message_type = codes "trade";
  market_ticker = some (record { value = codes "FED" });
  market_id = none;
  payload = codes "{}";
}

abbrev no_digits : ℕ → Bytes
no_digits n = []

encode-decode_example :
    (line : Bytes) × (encode_journal_record token_writer one_record ≡ some line)
    × (decode_journal_record token_json no_digits line ≡ ok one_record)
encode-decode_example =
    encode-decode token_json token_writer token_laws no_digits one_record
      ((omega arith, omega arith), omega arith, tt, (omega arith, omega arith), tt)
      (refl, refl, refl, tt)

-- A zstd whose frames are a header of four bytes and the text, and which takes a byte at a time. The
-- context is the part of the header that is still to come.
abbrev plain_frames : Decompressor
plain_frames = record { Context = ℕ; input_size = 2; decompress_stream = next_byte }
  where
    next_byte : ℕ → Bytes → Result (ℕ × Bytes × Bytes) Bytes
    next_byte c [] = ok (c, [], [])
    next_byte zero (x ∷ s) = ok (zero, s, x ∷ [])
    next_byte (suc c) (x ∷ s) = ok (c, s, [])

plain_frames_laws : StreamLaws plain_frames
plain_frames_laws = record {
  Yields = λ c bytes text. text ≡ drop c bytes;
  some_input = omega arith;
  nothing_inside = nothing_inside;
  one_call = one_call;
}
  where
    nothing_inside : (c : ℕ) (text : Bytes) → text ≡ drop c [] → text ≡ []
    nothing_inside zero text h = h
    nothing_inside (suc c) text h = h

    one_call :
        (c x : ℕ) (piece later text : Bytes)
        → text ≡ drop c (x ∷ (piece ++ later))
        → (c' : ℕ) × (taken left out rest : Bytes) × (plain_frames.decompress_stream c (x ∷ piece)
            ≡ ok (c', left, out))
          × (x ∷ piece ≡ taken ++ left)
          × (1 ≤ length taken + length out)
          × (text ≡ out ++ rest)
          × (rest ≡ drop c' (left ++ later))
    one_call zero x piece later text h =
        (zero, x ∷ [], piece, x ∷ [], piece ++ later, refl, refl, omega arith, h, refl)
    one_call (suc c) x piece later text h =
        (c, x ∷ [], piece, [], text, refl, refl, omega arith, refl, h)

-- A byte is decoded, one is in the buffer and three in the file, with a line and a half in all.
abbrev half_read : CompressedSource plain_frames
half_read = record {
  stream = record { context = 0; file = 10 ∷ 3 ∷ []; input = 2 ∷ [] };
  decoded = 1 ∷ [];
  source_exhausted = false;
}

compressed-lines_example :
    Takes plain_frames token_json no_digits 8 ((1 ∷ 2 ∷ []) ∷ (3 ∷ []) ∷ []) (compressed half_read)
unfolding plain_frames_laws getline split_line
compressed-lines_example =
    compressed-lines plain_frames plain_frames_laws token_json no_digits 8
      ((1 ∷ 2 ∷ []) ∷ (3 ∷ []) ∷ []) half_read (2 ∷ 10 ∷ 3 ∷ []) refl refl (omega arith)
      (3 ∷ [], refl, ([], refl, refl))

-- A file of two encoded records.
abbrev one_line : Bytes
one_line = written_or_empty (encode_journal_record token_writer one_record)
  where
    written_or_empty : Option Bytes → Bytes
    written_or_empty none = []
    written_or_empty (some line) = line

abbrev file_text : Bytes
file_text = unlines (one_line ∷ one_line ∷ [])

abbrev zstd_file : PlainSource
zstd_file = record { text = zstd_magic ++ file_text; is_bad = false }

abbrev enough_turns : ℕ
enough_turns = length (zstd_magic ++ file_text) + length file_text + 2

read_compressed-Encodes_example :
    (r : JournalReader plain_frames) × (open_reader plain_frames [] (some zstd_file) (some 4)
      ≡ ok r)
    × (read_records plain_frames token_json no_digits enough_turns 3 r
        ≡ some (one_record ∷ one_record ∷ [], none))
unfolding encode_journal_record record_document plain_frames_laws is_zstd bytes_eq
read_compressed-Encodes_example =
    read_compressed-Encodes token_json token_writer token_laws no_digits plain_frames enough_turns
      plain_frames_laws (one_record ∷ one_record ∷ []) (one_line ∷ one_line ∷ []) 3 [] zstd_file 4
      (refl, (refl, tt)) (one_machine, (one_machine, tt)) refl refl (omega arith) (omega arith)
  where
    one_machine : IsMachineRecord one_record
    one_machine = ((omega arith, omega arith), omega arith, tt, (omega arith, omega arith), tt)

-- A clock that stands still, and a disk that takes every block: what the stream took so far, what is
-- in the file, and what is buffered.
abbrev Blocks : Type 0
Blocks = List Bytes × List Bytes × List Bytes

abbrev still_disk : Platform
still_disk = record {
  World = Blocks;
  local_now = λ w. (record { micros = pos 0 }, w);
  exists = λ w path. bytes_eq path (codes "/x-s-000.jsonl");
  open_append = λ w path. (true, w);
  append = λ (taken, held, waiting) b. (true, (taken ++ b ∷ [], held, waiting ++ b ∷ []));
  flush_stream = λ (taken, held, waiting). (true, (taken, held ++ waiting, []));
  close_stream = λ (taken, held, waiting). (taken, held, []);
  fsync = λ w path. w;
  compress = λ level b. ok b;
  stamp = λ at. codes "s";
  path_in = λ directory name. directory ++ b'/' ∷ name;
}

still_log : BlockLog still_disk
still_log = record {
  accepted = λ (w : Blocks). w.0;
  stored = λ (w : Blocks). w.1;
  buffered = λ (w : Blocks). w.2;
  local_now_same = λ w. refl;
  open_same = λ w path. refl;
  append_good = λ w b e. refl;
  append_bad = λ w b e. absurd (true_is_not_false e);
  flush_same = λ w. refl;
  close_same = λ w. refl;
  fsync_same = λ w path. refl;
  append_kept = λ w b e. sym (append_assoc w.1 w.2 (b ∷ []));
  flush_stores = λ w e. (refl, refl);
  local_now_idle = λ w. (refl, refl);
  open_idle = λ w path e. (refl, e);
  close_idle = λ w e. (refl, refl);
  fsync_idle = λ w path. (refl, refl);
}
  where
    true_is_not_false : true ≡ false → ⊥
    true_is_not_false e = cc

abbrev nothing_yet : Blocks
nothing_yet = ([], [], [])

abbrev plain_config : JournalWriterConfig
plain_config = record (default_config) {
  flush_every = 1;
  compress = false;
  rotate_interval = pos 0;
}

abbrev started : Writer still_disk
started = record (fresh_writer still_disk nothing_yet [] (codes "x") plain_config) {
  segment_path = codes "/x-s-001.jsonl";
  stats = record (no_writer_stats still_disk) { segments_created = 1 };
}

started-Accounted : Accounted still_disk still_log started []
unfolding create open_segment free_candidate bytes_eq still_log
started-Accounted =
    create-Accounted still_disk still_log nothing_yet true [] (codes "x") plain_config started refl
      refl

write_line-Accounted_example :
    Accounted still_disk still_log ((write_line still_disk started (1 ∷ [])).1) ((1 ∷ []) ∷ [])
write_line-Accounted_example =
    write_line-Accounted still_disk still_log started [] (1 ∷ []) started-Accounted

flush-write_lines_example :
    (groups : List (List Bytes)) × AllStored still_disk
      (flush still_disk (write_lines still_disk started ((1 ∷ []) ∷ (2 ∷ []) ∷ []))).1.config
      groups
      (still_log.stored
        ((flush still_disk (write_lines still_disk started ((1 ∷ []) ∷ (2 ∷ []) ∷ []))).1.world))
    × (lines_of groups ≡ (1 ∷ []) ∷ (2 ∷ []) ∷ [])
unfolding create open_segment free_candidate bytes_eq still_log write_line flush
flush-write_lines_example =
    flush-write_lines still_disk still_log nothing_yet true [] (codes "x") plain_config started
      ((1 ∷ []) ∷ (2 ∷ []) ∷ []) refl refl refl refl (omega arith) refl refl

free_candidate-is_first_example :
    (k : ℕ) × (0 ≤ k)
    × (k ≤ 0 + 999)
    × (free_candidate still_disk started (codes "s") nothing_yet 999 0
        ≡ candidate still_disk started (codes "s") k)
    × ((n : ℕ)
        → 0 ≤ n
        → suc n ≤ k
        → still_disk.exists nothing_yet (candidate still_disk started (codes "s") n) ≡ true)
    × ((still_disk.exists nothing_yet (candidate still_disk started (codes "s") k) ≡ false)
        ⊎ (k ≡ 0 + 999))
free_candidate-is_first_example =
    free_candidate-is_first still_disk started (codes "s") nothing_yet 999 0
