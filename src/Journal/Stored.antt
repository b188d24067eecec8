-- ===== src/Journal/Stored.antt =====
-- What reaches the files: where no failure was counted, all that the streams took.
use eventbook.Prelude.{
  ℕ, suc, ◌+◌, ◌%◌, ◌^◌, ◌≤◌, ◌≡◌, refl, Bool, true, false, ◌||◌, Option, none, some, [], ◌∷◌, ◌++◌,
  Bytes, if◌then◌else◌, leb, arith, Bool-cases, Result-cases, inl, inr, ap, sym, ◌∙◌, append-nil,
}
use eventbook.Prelude.Int.{pos, ltb_ℤ}
use eventbook.Journal.{JournalError}
use eventbook.Journal.Writer.{
  Platform, Writer, open_segment, free_candidate, write_bytes, write_block, flush_out, after_block,
  flush, close_segment, rotate, add_line, by_size, by_time, rotate_if_due, unless_failed,
  write_line, or_problem,
}
use eventbook.Journal.Blocks.{write_block-plain, write_block-frame, write_block-error}
use eventbook.Journal.Accounts.{BlockLog}

module _ (os : Platform) (log : BlockLog os) where
  -- Nothing that the streams took is lost, and nothing is buffered.
  abbrev pub Settled : os.World → Type 0
  Settled w = (log.stored w ≡ log.accepted w) × (log.buffered w ≡ [])

  abbrev Whole : os.World → Type 0
  Whole w = log.stored w ++ log.buffered w ≡ log.accepted w

  Settled-Whole : (w : os.World) → Settled w → Whole w
  Settled-Whole w (e, none_buffered) =
      ap (λ b. log.stored w ++ b) none_buffered ∙ append-nil (log.stored w) ∙ e

  -- The failures so far are counted and are not many, and without one the world is as it should be.
  pub record Counted (P : os.World → Type 0) (n : ℕ) (write_failures : ℕ) (world : os.World)
      : Type 0 where
    pub failures : ℕ
    pub few : failures ≤ n
    pub counted : write_failures ≡ failures % 2 ^ 64
    pub kept : failures ≡ 0 → P world

  abbrev pub Safe : ℕ → Writer os → Type 0
  Safe n w = Counted Settled n w.stats.write_failures w.world

  moved :
      (P Q : os.World → Type 0) (n m f : ℕ) (world world' : os.World)
      → Counted P n f world
      → n ≤ m
      → (P world → Q world')
      → Counted Q m f world'
  moved P Q n m f world world' h le k = record {
    failures = h.failures;
    few = omega (arith, h.few);
    counted = h.counted;
    kept = λ e. k (h.kept e);
  }

  failed_once :
      (P Q : os.World → Type 0) (n f : ℕ) (world world' : os.World)
      → Counted P n f world
      → Counted Q (suc n) ((f + 1) % 2 ^ 64) world'
  failed_once P Q n f world world' h = record {
    failures = suc h.failures;
    few = omega (arith, h.few);
    counted = omega (arith, h.counted);
    kept = λ e. absurd (omega arith);
  }

  flush_out-Safe :
      (n : ℕ) (w : Writer os)
      → Counted Whole n w.stats.write_failures w.world
      → Safe (suc n) ((flush_out os w).1)
  unfolding flush_out
  flush_out-Safe n w h = elim (Bool-cases ((os.flush_stream w.world).0)) [
    | inl e ↦
        let (stores, empties) = log.flush_stores w.world e in
        rw (e, flush_out)
          (moved Whole Settled n (suc n) w.stats.write_failures w.world _ h (omega arith)
            (λ whole. (stores ∙ whole ∙ sym (log.flush_same w.world), empties)))
    | inr e ↦ rw (e, flush_out) (failed_once Whole Settled n w.stats.write_failures w.world _ h)
  ]

  module _ (n : ℕ) (w : Writer os) (h : Safe n w) where
    idle :
        (P : os.World → Type 0) (m : ℕ) (world : os.World)
        → n ≤ m
        → (Settled w.world → P world)
        → Counted P m w.stats.write_failures world
    idle P m world le k = moved Settled P n m w.stats.write_failures w.world world h le k

    write_bytes-Safe : (block : Bytes) → Safe (suc n) ((after_block os (write_bytes os w block)).1)
    unfolding write_bytes
    write_bytes-Safe block = elim (Bool-cases ((os.append w.world block).0)) [
      | inl e ↦
          let world = (os.append w.world block).1 in
          rw (e, write_bytes)
            (flush_out-Safe n _ (
              idle Whole n world (omega arith) (λ settled.
                log.append_kept w.world block e
                ∙ ap (λ bs. bs ++ block ∷ []) (Settled-Whole w.world settled)
                ∙ sym (log.append_good w.world block e))))
      | inr e ↦
          rw (e, write_bytes)
            (failed_once Settled Settled n w.stats.write_failures w.world
              ((os.append w.world block).1) h)
    ]

    write_block-Safe :
        (c : ℕ) (text : Bytes) → Safe (suc n) ((after_block os (write_block os w (c ∷ text))).1)
    write_block-Safe c text = elim (Bool-cases w.config.compress) [
      | inl on ↦ elim (Result-cases (os.compress w.config.compression_level (c ∷ text))) [
        | inl (name, z) ↦
            rw (write_block-error os w c text name on z)
              (failed_once Settled Settled n w.stats.write_failures w.world w.world h)
        | inr (frame, z) ↦ rw (write_block-frame os w c text frame on z) (write_bytes-Safe frame)
      ]
      | inr off ↦ rw (write_block-plain os w c text off) (write_bytes-Safe (c ∷ text))
    ]

    pub flush-Safe : Safe (suc n) ((flush os w).1)
    unfolding flush
    flush-Safe = by_pending w.pending refl
      where
        by_pending : (p : Bytes) → w.pending ≡ p → Safe (suc n) ((flush os w).1)
        by_pending [] e =
            rw (e, flush)
              (flush_out-Safe n w (idle Whole n w.world (omega arith) (Settled-Whole w.world)))
        by_pending (c ∷ text) e = rw (e, flush) (write_block-Safe c text)

    close_segment-Safe : Safe n (close_segment os w)
    unfolding close_segment
    close_segment-Safe = idle Settled n _ (omega arith) (λ settled.
        let closed = log.close_idle w.world settled.1 in
        let there : Settled (os.close_stream w.world) =
          (closed.0 ∙ settled.0 ∙ sym (log.close_same w.world), closed.1) in
        synced w.config.fsync_on_rotate there)
      where
        synced :
            (b : Bool)
            → Settled (os.close_stream w.world)
            → Settled (
                if b
                then os.fsync (os.close_stream w.world) w.segment_path
                else os.close_stream w.world)
        synced false there = there
        synced true there =
            let world = os.close_stream w.world in
            let (s, b) = log.fsync_idle world w.segment_path in
            (s ∙ there.0 ∙ sym (log.fsync_same world w.segment_path), b ∙ there.1)

    local_now-Settled : Settled w.world → Settled ((os.local_now w.world).1)
    local_now-Settled settled =
        let (s, b) = log.local_now_idle w.world in
        (s ∙ settled.0 ∙ sym (log.local_now_same w.world), b ∙ settled.1)

    pub open_segment-Safe : Safe n ((open_segment os w).1)
    unfolding open_segment
    open_segment-Safe =
        let (now, world) = os.local_now w.world in
        let path = free_candidate os w (os.stamp now) world 999 0 in
        let opened = idle Settled n ((os.open_append world path).1) (omega arith) (λ settled.
          let there = local_now-Settled settled in
          let (s, b) = log.open_idle world path there.1 in
          (s ∙ there.0 ∙ sym (log.open_same world path), b)) in
        elim (Bool-cases ((os.open_append world path).0)) [
          | inl e ↦ rw (e, open_segment) opened
          | inr e ↦ rw (e, open_segment) opened
        ]

    by_time-Safe : Safe n ((by_time os w).1)
    unfolding by_time
    by_time-Safe = elim (Bool-cases (ltb_ℤ (pos 0) w.config.rotate_interval)) [
      | inl e ↦
          rw (e, by_time)
            (idle Settled n ((os.local_now w.world).1) (omega arith) local_now-Settled)
      | inr e ↦ rw (e, by_time) h
    ]

  rotate-Safe : (n : ℕ) (w : Writer os) → Safe n w → Safe (suc n) ((rotate os w).1)
  unfolding rotate
  rotate-Safe n w h =
      let flushed = (flush os w).1 in
      let closed = close_segment os flushed in
      let closed_safe = close_segment-Safe (suc n) flushed (flush-Safe n w h) in
      either_problem (flush os w).0 (open_segment os closed)
        (open_segment-Safe (suc n) closed closed_safe)
    where
      either_problem :
          (problem : Option JournalError) (step : Option JournalError × Writer os)
          → Safe (suc n) step.1
          → Safe (suc n) ((or_problem os problem step).1)
      either_problem problem (some e, w') k = k
      either_problem problem (none, w') k = k

  rotate_if_due-Safe : (n : ℕ) (w : Writer os) → Safe n w → Safe (suc n) ((rotate_if_due os w).1)
  unfolding rotate_if_due
  rotate_if_due-Safe n w h =
      let looked = by_time-Safe n w h in
      elim (Bool-cases (by_size os w || (by_time os w).0)) [
        | inl e ↦ rw (e, rotate_if_due) (rotate-Safe n (by_time os w).1 looked)
        | inr e ↦
            rw (e, rotate_if_due)
              (idle n (by_time os w).1 looked Settled (suc n) (by_time os w).1.world (omega arith)
                (λ settled. settled))
      ]

  -- A line adds two failures at most: of a flush, and of a rotation.
  pub write_line-Safe :
      (n : ℕ) (w : Writer os) (l : Bytes) → Safe n w → Safe (suc (suc n)) ((write_line os w l).1)
  unfolding write_line add_line
  write_line-Safe n w l h =
      let added = add_line os w l in
      let added_safe : Safe n added = h in
      elim (Bool-cases (leb added.config.flush_every added.pending_records)) [
        | inl e ↦ rw (e, write_line) (then_rotate (flush os added) (flush-Safe n added added_safe))
        | inr e ↦
            rw (e, write_line)
              (more (suc n) (rotate_if_due os added).1 (rotate_if_due-Safe n added added_safe))
      ]
    where
      more : (m : ℕ) (v : Writer os) → Safe m v → Safe (suc m) v
      more m v k = idle m v k Settled (suc m) v.world (omega arith) (λ settled. settled)

      then_rotate :
          (step : Option JournalError × Writer os)
          → Safe (suc n) step.1
          → Safe (suc (suc n)) ((unless_failed os step).1)
      then_rotate (some e, w') k = more (suc n) w' k
      then_rotate (none, w') k = rotate_if_due-Safe (suc n) w' k
