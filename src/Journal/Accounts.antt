-- ===== src/Journal/Accounts.antt =====
-- Every operation of a `JournalWriter` keeps the account.
use eventbook.Prelude.{
  ℕ, ◌≡◌, refl, Bool, true, false, ◌||◌, Option, none, some, List, [], ◌∷◌, ◌++◌, Bytes, ok, leb,
  Bool-cases, Result-cases, inl, inr, ap, sym, ◌∙◌, subst,
}
use eventbook.Prelude.Int.{pos, ltb_ℤ}
use eventbook.Journal.{JournalError}
use eventbook.Journal.Writer.{
  Platform, Writer, open_segment, free_candidate, write_bytes, write_block, flush_out, after_block,
  flush, close_segment, rotate, add_line, by_size, by_time, rotate_if_due, unless_failed,
  write_line, clear_pending, count_dropped, or_problem,
}
use eventbook.Journal.Blocks.{write_block-plain, write_block-frame, write_block-error}
use eventbook.Journal.Ledger.{Ledger, Stored, StoredIf, Ledger-taken, Ledger-dropped, Ledger-line}

-- Blocks seen from outside. `accepted` are those that the segments' streams took, in order, since the
-- writer was created: a write that leaves the stream good adds one. A stream buffers what it takes, so
-- this is not yet what is on disk: `stored` are the blocks that have reached the files and `buffered`
-- those that are still in the stream. A flush that leaves the stream good sends on all that is
-- buffered; of one that fails nothing is said but that the stream takes no more by it, and likewise
-- of a write that fails and of closing a stream that still buffers something.
pub record BlockLog (os : Platform) : Type 0 where
  pub accepted : os.World → List Bytes
  pub stored : os.World → List Bytes
  pub buffered : os.World → List Bytes
  pub local_now_same : (w : os.World) → accepted ((os.local_now w).1) ≡ accepted w
  pub open_same : (w : os.World) (path : Bytes) → accepted ((os.open_append w path).1) ≡ accepted w
  pub append_good :
      (w : os.World) (b : Bytes)
      → (os.append w b).0 ≡ true
      → accepted ((os.append w b).1) ≡ accepted w ++ b ∷ []
  pub append_bad :
      (w : os.World) (b : Bytes)
      → (os.append w b).0 ≡ false
      → accepted ((os.append w b).1) ≡ accepted w
  pub flush_same : (w : os.World) → accepted ((os.flush_stream w).1) ≡ accepted w
  pub close_same : (w : os.World) → accepted (os.close_stream w) ≡ accepted w
  pub fsync_same : (w : os.World) (path : Bytes) → accepted (os.fsync w path) ≡ accepted w
  pub append_kept :
      (w : os.World) (b : Bytes)
      → (os.append w b).0 ≡ true
      → stored ((os.append w b).1) ++ buffered ((os.append w b).1)
        ≡ (stored w ++ buffered w) ++ b ∷ []
  pub flush_stores :
      (w : os.World)
      → (os.flush_stream w).0 ≡ true
      → (stored ((os.flush_stream w).1) ≡ stored w ++ buffered w)
        × (buffered ((os.flush_stream w).1) ≡ [])
  pub local_now_idle :
      (w : os.World)
      → (stored ((os.local_now w).1) ≡ stored w) × (buffered ((os.local_now w).1) ≡ buffered w)
  pub open_idle :
      (w : os.World) (path : Bytes)
      → buffered w ≡ []
      → (stored ((os.open_append w path).1) ≡ stored w)
        × (buffered ((os.open_append w path).1) ≡ [])
  pub close_idle :
      (w : os.World)
      → buffered w ≡ []
      → (stored (os.close_stream w) ≡ stored w) × (buffered (os.close_stream w) ≡ [])
  pub fsync_idle :
      (w : os.World) (path : Bytes)
      → (stored (os.fsync w path) ≡ stored w) × (buffered (os.fsync w path) ≡ buffered w)

module _ (os : Platform) (log : BlockLog os) where
  abbrev pub Accounted : Writer os → List Bytes → Type 0
  Accounted w ls =
      Ledger os w.config (log.accepted w.world) w.pending w.pending_records w.stats.dropped_records
        w.stats.records_written ls

  -- The account in another world with the same accepted blocks.
  abbrev LedgerAt : Writer os → List Bytes → List Bytes → Type 0
  LedgerAt w ls bs =
      Ledger os w.config bs w.pending w.pending_records w.stats.dropped_records
        w.stats.records_written ls

  pub flush_out-Accounted :
      (w : Writer os) (ls : List Bytes) → Accounted w ls → Accounted ((flush_out os w).1) ls
  unfolding flush_out
  flush_out-Accounted w ls h =
      let moved = subst (LedgerAt w ls) (sym (log.flush_same w.world)) h in
      elim (Bool-cases ((os.flush_stream w.world).0)) [
        | inl e ↦ rw (e, flush_out) moved
        | inr e ↦ rw (e, flush_out) moved
      ]

  false_is_not_true : false ≡ true → ⊥
  false_is_not_true e = cc

  -- The pending text in a block that the stream took, or in none.
  module _ (w : Writer os) (ls : List Bytes) (h : Accounted w ls) where
    taken :
        (world : os.World) (block : Bytes)
        → log.accepted world ≡ log.accepted w.world ++ block ∷ []
        → Stored os w.config w.pending block
        → Accounted (clear_pending os (record w { world = world })) ls
    taken world block e stored = subst (LedgerAt (clear_pending os w) ls) (sym e) (
        Ledger-taken os w.config (log.accepted w.world) w.pending w.pending_records
          w.stats.dropped_records w.stats.records_written ls h block stored)

    not_taken :
        (world : os.World)
        → log.accepted world ≡ log.accepted w.world
        → Accounted (clear_pending os (count_dropped os (record w { world = world }))) ls
    not_taken world e = subst (LedgerAt (clear_pending os (count_dropped os w)) ls) (sym e) (
        Ledger-dropped os w.config (log.accepted w.world) w.pending w.pending_records
          w.stats.dropped_records w.stats.records_written ls h)

    write_bytes-Accounted :
        (block : Bytes)
        → Stored os w.config w.pending block
        → Accounted ((after_block os (write_bytes os w block)).1) ls
    unfolding write_bytes
    write_bytes-Accounted block stored = elim (Bool-cases ((os.append w.world block).0)) [
      | inl e ↦
          let world = (os.append w.world block).1 in
          rw (e, write_bytes)
            (flush_out-Accounted _ ls (taken world block (log.append_good w.world block e) stored))
      | inr e ↦
          rw (e, write_bytes)
            (not_taken ((os.append w.world block).1) (log.append_bad w.world block e))
    ]

    write_block-Accounted :
        (c : ℕ) (text : Bytes)
        → w.pending ≡ c ∷ text
        → Accounted ((after_block os (write_block os w (c ∷ text))).1) ls
    write_block-Accounted c text e = elim (Bool-cases w.config.compress) [
      | inl on ↦ elim (Result-cases (os.compress w.config.compression_level (c ∷ text))) [
        | inl (name, z) ↦ rw (write_block-error os w c text name on z) (not_taken w.world refl)
        | inr (frame, z) ↦ rw (write_block-frame os w c text frame on z) (
            write_bytes-Accounted frame (
              stored_frame w.config.compress frame on
                (ap (os.compress w.config.compression_level) e ∙ z)))
      ]
      | inr off ↦
          rw (write_block-plain os w c text off) (
            write_bytes-Accounted (c ∷ text)
              (stored_plain w.config.compress (c ∷ text) off (sym e)))
    ]
      where
        stored_frame :
            (b : Bool) (frame : Bytes)
            → b ≡ true
            → os.compress w.config.compression_level w.pending ≡ ok frame
            → StoredIf os w.config b w.pending frame
        stored_frame true frame on z = z
        stored_frame false frame on z = absurd (false_is_not_true on)

        stored_plain :
            (b : Bool) (text : Bytes)
            → b ≡ false
            → text ≡ w.pending
            → StoredIf os w.config b w.pending text
        stored_plain true text off z = absurd (false_is_not_true (sym off))
        stored_plain false text off z = z

    pub flush-Accounted : Accounted ((flush os w).1) ls
    unfolding flush
    flush-Accounted = by_pending w.pending refl
      where
        by_pending : (p : Bytes) → w.pending ≡ p → Accounted ((flush os w).1) ls
        by_pending [] e = rw (e, flush) (flush_out-Accounted w ls h)
        by_pending (c ∷ text) e = rw (e, flush) (write_block-Accounted c text e)

    close_segment-accepted : log.accepted ((close_segment os w).world) ≡ log.accepted w.world
    unfolding close_segment
    close_segment-accepted = elim (Bool-cases w.config.fsync_on_rotate) [
      | inl on ↦
          rw on (log.fsync_same (os.close_stream w.world) w.segment_path ∙ log.close_same w.world)
      | inr off ↦ rw off (log.close_same w.world)
    ]

    close_segment-Accounted : Accounted (close_segment os w) ls
    unfolding close_segment
    close_segment-Accounted = subst (LedgerAt w ls) (sym close_segment-accepted) h

    pub open_segment-Accounted : Accounted ((open_segment os w).1) ls
    unfolding open_segment
    open_segment-Accounted =
        let (now, world) = os.local_now w.world in
        let path = free_candidate os w (os.stamp now) world 999 0 in
        let moved =
          subst (LedgerAt w ls) (sym (log.open_same world path ∙ log.local_now_same w.world)) h in
        elim (Bool-cases ((os.open_append world path).0)) [
          | inl e ↦ rw (e, open_segment) moved
          | inr e ↦ rw (e, open_segment) moved
        ]

  pub rotate-Accounted :
      (w : Writer os) (ls : List Bytes) → Accounted w ls → Accounted ((rotate os w).1) ls
  unfolding rotate
  rotate-Accounted w ls h =
      let flushed = (flush os w).1 in
      let closed = close_segment os flushed in
      let opened =
        open_segment-Accounted closed ls
          (close_segment-Accounted flushed ls (flush-Accounted w ls h)) in
      either_problem (flush os w).0 (open_segment os closed) opened
    where
      either_problem :
          (problem : Option JournalError) (step : Option JournalError × Writer os)
          → Accounted step.1 ls
          → Accounted ((or_problem os problem step).1) ls
      either_problem problem (some e, w') k = k
      either_problem problem (none, w') k = k

  by_time-on :
      (w : Writer os)
      → ltb_ℤ (pos 0) w.config.rotate_interval ≡ true
      → (by_time os w).1 ≡ record w { world = (os.local_now w.world).1 }
  unfolding by_time
  by_time-on w e = simp e

  by_time-off :
      (w : Writer os) → ltb_ℤ (pos 0) w.config.rotate_interval ≡ false → (by_time os w).1 ≡ w
  unfolding by_time
  by_time-off w e = simp e

  by_time-Accounted :
      (w : Writer os) (ls : List Bytes) → Accounted w ls → Accounted ((by_time os w).1) ls
  unfolding by_time
  by_time-Accounted w ls h =
      let moved = subst (LedgerAt w ls) (sym (log.local_now_same w.world)) h in
      elim (Bool-cases (ltb_ℤ (pos 0) w.config.rotate_interval)) [
        | inl e ↦ rw (by_time-on w e) moved
        | inr e ↦ rw (by_time-off w e) h
      ]

  pub rotate_if_due-Accounted :
      (w : Writer os) (ls : List Bytes) → Accounted w ls → Accounted ((rotate_if_due os w).1) ls
  unfolding rotate_if_due
  rotate_if_due-Accounted w ls h =
      let looked = by_time-Accounted w ls h in
      elim (Bool-cases (by_size os w || (by_time os w).0)) [
        | inl e ↦ rw (e, rotate_if_due) (rotate-Accounted _ ls looked)
        | inr e ↦ rw (e, rotate_if_due) looked
      ]

  pub add_line-Accounted :
      (w : Writer os) (ls : List Bytes) (l : Bytes)
      → Accounted w ls
      → Accounted (add_line os w l) (ls ++ l ∷ [])
  unfolding add_line
  add_line-Accounted w ls l h =
      Ledger-line os w.config (log.accepted w.world) w.pending w.pending_records
        w.stats.dropped_records w.stats.records_written ls h l

  -- Where the lines so far are accounted for, so they are with one more line after writing it, whatever
  -- the clock, the disk and zstd do: each line is in a block that a segment's stream took, in order, or
  -- among the dropped ones, or pending, and the counters are the numbers of these. What a stream took
  -- and then failed to send to its file is among the first.
  pub write_line-Accounted :
      (w : Writer os) (ls : List Bytes) (l : Bytes)
      → Accounted w ls
      → Accounted ((write_line os w l).1) (ls ++ l ∷ [])
  unfolding write_line
  write_line-Accounted w ls l h =
      let added = add_line os w l in
      let counted = add_line-Accounted w ls l h in
      elim (Bool-cases (leb added.config.flush_every added.pending_records)) [
        | inl e ↦
            rw (e, write_line)
              (then_rotate (flush os added) (flush-Accounted added (ls ++ l ∷ []) counted))
        | inr e ↦ rw (e, write_line) (rotate_if_due-Accounted added (ls ++ l ∷ []) counted)
      ]
    where
      then_rotate :
          (step : Option JournalError × Writer os)
          → Accounted step.1 (ls ++ l ∷ [])
          → Accounted ((unless_failed os step).1) (ls ++ l ∷ [])
      then_rotate (some e, w') k = k
      then_rotate (none, w') k = rotate_if_due-Accounted w' (ls ++ l ∷ []) k
