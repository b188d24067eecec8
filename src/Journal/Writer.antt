-- ===== src/Journal/Writer.antt =====
-- `JournalWriter`: batches of lines, blocks, rotating segments and the counters. The file system, the
-- clock, zstd and the text of an instant in a segment's name are parameters.
use eventbook.Prelude.{
  ℕ, zero, suc, ◌+◌, ◌*◌, ◌/◌, ◌%◌, ◌^◌, ltb, leb, Bool, true, false, ◌&&◌, ◌||◌, Option, none,
  some, [], ◌∷◌, ◌++◌, length, if◌then◌else◌, Bytes, codes, Result, ok, failure,
}
use eventbook.Prelude.Int.{ℤ, pos, leb_ℤ, ltb_ℤ}
use eventbook.Events.{LocalTimestamp}
use eventbook.Time.{scale_ℤ}
use eventbook.MarketState.{increment, elapsed}
use eventbook.Json.Writer.{JsonWriter, newline}
use eventbook.Journal.{
  JournalRecord, JournalErrorKind, JournalError, cannot_open, write_failed, compression_failed,
}
use eventbook.Journal.Codec.{encode_journal_record}

-- A Boolean answer is whether the stream is good after the call.
pub record Platform : Type 1 where
  pub World : Type 0
  pub local_now : World → LocalTimestamp × World
  pub exists : World → Bytes → Bool
  pub open_append : World → Bytes → Bool × World
  pub append : World → Bytes → Bool × World
  pub flush_stream : World → Bool × World
  pub close_stream : World → World
  pub fsync : World → Bytes → World
  -- `ZSTD_compress` at a level: the frame, or the name of an error.
  pub compress : ℤ → Bytes → Result Bytes Bytes
  -- `segment_stamp`.
  pub stamp : LocalTimestamp → Bytes
  -- `directory / name`.
  pub path_in : Bytes → Bytes → Bytes

pub record JournalWriterStats : Type 0 where
  pub records_written : ℕ
  pub uncompressed_bytes : ℕ
  pub bytes_on_disk : ℕ
  pub write_failures : ℕ
  pub dropped_records : ℕ
  pub segments_created : ℕ

pub record JournalWriterConfig : Type 0 where
  pub flush_every : ℕ
  pub rotate_bytes : ℕ
  -- Minutes.
  pub rotate_interval : ℤ
  pub compress : Bool
  pub compression_level : ℤ
  pub fsync_on_rotate : Bool

abbrev pub default_config : JournalWriterConfig
default_config = record {
  flush_every = 256;
  rotate_bytes = 256 * 1024 * 1024;
  rotate_interval = pos 60;
  compress = true;
  compression_level = pos 3;
  fsync_on_rotate = true;
}

abbrev pub add_uint64 : ℕ → ℕ → ℕ
add_uint64 a b = (a + b) % 2 ^ 64

-- `%03d` of a number below 1000, behind a dash.
abbrev pub counter_suffix : ℕ → Bytes
counter_suffix n = b'-' ∷ (b'0' + n / 100) ∷ (b'0' + n / 10 % 10) ∷ (b'0' + n % 10) ∷ []

abbrev pub journal_problem : JournalErrorKind → Bytes → JournalError
journal_problem kind detail = record { kind = kind; line = 0; detail = detail }

abbrev pub minute_micros : ℤ → ℤ
minute_micros m = scale_ℤ 60_000_000 m

module _ (os : Platform) where
  pub record Writer : Type 0 where
    pub world : os.World
    pub directory : Bytes
    pub prefix : Bytes
    pub segment_path : Bytes
    pub config : JournalWriterConfig
    pub stats : JournalWriterStats
    pub pending : Bytes
    pub pending_records : ℕ
    pub segment_uncompressed : ℕ
    pub segment_opened : LocalTimestamp

  abbrev pub candidate : Writer → Bytes → ℕ → Bytes
  candidate w stamp counter = os.path_in w.directory (
      w.prefix
      ++ b'-'
        ∷ (stamp
            ++ counter_suffix counter
            ++ codes ".jsonl"
            ++ (if w.config.compress then codes ".zst" else [])))

  -- The loop over the counter: `left` more candidates after this one.
  unfoldable pub free_candidate : Writer → Bytes → os.World → ℕ → ℕ → Bytes
  free_candidate w stamp world zero counter = candidate w stamp counter
  free_candidate w stamp world (suc left) counter =
      let later = free_candidate w stamp world left (counter + 1) in
      if os.exists world (candidate w stamp counter) then later else candidate w stamp counter

  unfoldable pub open_segment : Writer → Option JournalError × Writer
  unfolding free_candidate
  open_segment w =
      let (now, world) = os.local_now w.world in
      let path = free_candidate w (os.stamp now) world 999 0 in
      let (good, world') = os.open_append world path in
      if good
      then (
        none,
        record w {
          world = world';
          segment_path = path;
          segment_opened = now;
          segment_uncompressed = 0;
          stats = record (w.stats) { segments_created = increment w.stats.segments_created };
        },
      )
      else (some (journal_problem cannot_open path), record w { world = world' })

  -- `out.write`, and the count of the bytes.
  unfoldable pub write_bytes : Writer → Bytes → Option JournalError × Writer
  write_bytes w bytes =
      let (good, world) = os.append w.world bytes in
      if good
      then (
        none,
        record w {
          world = world;
          stats = record (w.stats) {
            bytes_on_disk = add_uint64 w.stats.bytes_on_disk (length bytes);
          };
        },
      )
      else (some (journal_problem write_failed []), record w { world = world })

  unfoldable pub write_block : Writer → Bytes → Option JournalError × Writer
  unfolding write_bytes
  write_block w [] = (none, w)
  write_block w (c ∷ block) =
      if w.config.compress
      then elim (os.compress w.config.compression_level (c ∷ block)) [
        | failure name ↦ (some (journal_problem compression_failed name), w)
        | ok frame ↦ write_bytes w frame
      ]
      else write_bytes w (c ∷ block)

  abbrev pub clear_pending : Writer → Writer
  clear_pending w = record w { pending = []; pending_records = 0 }

  abbrev pub count_failure : Writer → Writer
  count_failure w = record w {
    stats = record (w.stats) { write_failures = increment w.stats.write_failures };
  }

  -- Before a block that failed is cleared.
  abbrev pub count_dropped : Writer → Writer
  count_dropped w = record w {
    stats = record (w.stats) {
      write_failures = increment w.stats.write_failures;
      dropped_records = add_uint64 w.stats.dropped_records w.pending_records;
    };
  }

  unfoldable pub flush_out : Writer → Option JournalError × Writer
  flush_out w =
      let (good, world) = os.flush_stream w.world in
      if good then (none, record w { world = world }) else (
        some (journal_problem write_failed (codes "flush")),
        count_failure (record w { world = world }),
      )

  abbrev pub after_block : Option JournalError × Writer → Option JournalError × Writer
  after_block (some problem, w) = (some problem, clear_pending (count_dropped w))
  after_block (none, w) = flush_out (clear_pending w)

  unfoldable pub flush : Writer → Option JournalError × Writer
  unfolding write_block flush_out
  flush w = elim w.pending [ [] ↦ flush_out w | c ∷ text ↦ after_block (write_block w (c ∷ text)) ]

  -- Closing a segment after its last flush.
  unfoldable pub close_segment : Writer → Writer
  close_segment w =
      let world = os.close_stream w.world in
      record w { world = if w.config.fsync_on_rotate then os.fsync world w.segment_path else world }

  abbrev pub or_problem :
      Option JournalError → Option JournalError × Writer → Option JournalError × Writer
  or_problem problem (some opened, w) = (some opened, w)
  or_problem problem (none, w) = (problem, w)

  unfoldable pub rotate : Writer → Option JournalError × Writer
  unfolding flush close_segment open_segment
  rotate w =
      let (problem, flushed) = flush w in or_problem problem (open_segment (close_segment flushed))

  -- `append` of the line, and the counters.
  unfoldable pub add_line : Writer → Bytes → Writer
  add_line w line =
      let added = length line + 1 in
      record w {
        pending = w.pending ++ line ++ newline ∷ [];
        pending_records = increment w.pending_records;
        segment_uncompressed = add_uint64 w.segment_uncompressed added;
        stats = record (w.stats) {
          records_written = increment w.stats.records_written;
          uncompressed_bytes = add_uint64 w.stats.uncompressed_bytes added;
        };
      }

  unfoldable pub by_size : Writer → Bool
  by_size w = ltb 0 w.config.rotate_bytes && leb w.config.rotate_bytes w.segment_uncompressed

  -- The clock is read where rotation by time is on.
  unfoldable pub by_time : Writer → Bool × Writer
  by_time w =
      if ltb_ℤ (pos 0) w.config.rotate_interval
      then (
        leb_ℤ (minute_micros w.config.rotate_interval)
            (elapsed (os.local_now w.world).0 w.segment_opened),
        record w { world = (os.local_now w.world).1 },
      )
      else (false, w)

  unfoldable pub rotate_if_due : Writer → Option JournalError × Writer
  unfolding by_size by_time rotate
  rotate_if_due w =
      let (due, looked) = by_time w in if by_size w || due then rotate looked else (none, looked)

  abbrev pub unless_failed : Option JournalError × Writer → Option JournalError × Writer
  unless_failed (some problem, w) = (some problem, w)
  unless_failed (none, w) = rotate_if_due w

  unfoldable pub write_line : Writer → Bytes → Option JournalError × Writer
  unfolding add_line flush rotate_if_due
  write_line w line =
      let added = add_line w line in
      if leb added.config.flush_every added.pending_records
      then unless_failed (flush added)
      else rotate_if_due added

  -- `none` where the encoding throws: the writer is then as it was.
  unfoldable pub write : JsonWriter → Writer → JournalRecord → Option (Option JournalError × Writer)
  unfolding write_line
  write json w r = elim (encode_journal_record json r) [
    | none ↦ none
    | some line ↦ some (write_line w line)
  ]

  abbrev pub no_writer_stats : JournalWriterStats
  no_writer_stats = record {
    records_written = 0;
    uncompressed_bytes = 0;
    bytes_on_disk = 0;
    write_failures = 0;
    dropped_records = 0;
    segments_created = 0;
  }

  abbrev pub fresh_writer : os.World → Bytes → Bytes → JournalWriterConfig → Writer
  fresh_writer world directory prefix config = record {
    world = world;
    directory = directory;
    prefix = prefix;
    segment_path = [];
    config = config;
    stats = no_writer_stats;
    pending = [];
    pending_records = 0;
    segment_uncompressed = 0;
    segment_opened = record { micros = pos 0 };
  }

  abbrev pub created : Option JournalError × Writer → Result Writer JournalError
  created (some problem, w) = failure problem
  created (none, w) = ok w

  -- `create`, where the directory is there or could be made, and where it is not.
  unfoldable pub create :
      os.World → Bool → Bytes → Bytes → JournalWriterConfig → Result Writer JournalError
  unfolding open_segment
  create world is_directory directory prefix config =
      if is_directory
      then created (open_segment (fresh_writer world directory prefix config))
      else failure (journal_problem cannot_open directory)
