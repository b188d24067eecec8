-- ===== src/Journal/NothingLost.antt =====
-- What the account of a `JournalWriter` says of a whole recording.
use eventbook.Prelude.{
  ℕ, suc, ◌+◌, ◌*◌, ◌≤◌, ◌<◌, ◌^◌, ◌≡◌, refl, inl, inr, Bool-cases, Bool, true, false, Option, none,
  some, List, [], ◌∷◌, ◌++◌, length, length-append, Bytes, ok, arith, ap, sym, ◌∙◌, subst,
  append-nil, append_assoc,
}
use eventbook.Json.Writer.{newline}
use eventbook.Journal.{JournalError}
use eventbook.Journal.Writer.{
  Platform, Writer, JournalWriterConfig, clear_pending, flush_out, after_block, write_block, flush,
  write_line, created, fresh_writer, create, open_segment,
}
use eventbook.Journal.Reading.{unlines}
use eventbook.Journal.Ledger.{Merges, lines_of, AllStored}
use eventbook.Journal.Accounts.{
  BlockLog, Accounted, open_segment-Accounted, write_line-Accounted, flush-Accounted,
}
use eventbook.Journal.Stored.{Settled, Safe, open_segment-Safe, write_line-Safe, flush-Safe}

Merges-length : (xs ys zs : List Bytes) → Merges xs ys zs → length xs + length ys ≡ length zs
Merges-length xs ys [] (ex, ey) = rw (ex, ey) refl
Merges-length xs ys (z ∷ zs) (inl (xs', e, h)) = rw e (omega (arith, Merges-length xs' ys zs h))
Merges-length xs ys (z ∷ zs) (inr (ys', e, h)) = rw e (omega (arith, Merges-length xs ys' zs h))

Merges-nil : (xs zs : List Bytes) → Merges xs [] zs → xs ≡ zs
Merges-nil xs [] (ex, ey) = ex
Merges-nil xs (z ∷ zs) (inl (xs', e, h)) = e ∙ ap (λ l. z ∷ l) (Merges-nil xs' zs h)
Merges-nil xs (z ∷ zs) (inr (ys', e, h)) = absurd (nil_is_not_cons z ys' e)
  where
    nil_is_not_cons : (z : Bytes) (ys : List Bytes) → [] ≡ z ∷ ys → ⊥
    nil_is_not_cons z ys e = cc

length-zero : (xs : List Bytes) → length xs ≡ 0 → xs ≡ []
length-zero [] e = refl
length-zero (x ∷ xs) e = absurd (omega arith)

unlines-nil : (xs : List Bytes) → [] ≡ unlines xs → xs ≡ []
unlines-nil [] e = refl
unlines-nil (x ∷ xs) e = absurd (omega (arith, ap length e, length-append x (newline ∷ unlines xs)))

-- All the lines of a recording, one after the other.
abbrev pub write_lines : (os : Platform) → Writer os → List Bytes → Writer os
write_lines os w [] = w
write_lines os w (l ∷ ls) = write_lines os ((write_line os w l).1) ls

module _ (os : Platform) (log : BlockLog os) where
  pub create-Accounted :
      (world : os.World) (is_directory : Bool) (directory prefix : Bytes)
      (config : JournalWriterConfig) (w : Writer os)
      → log.accepted world ≡ []
      → create os world is_directory directory prefix config ≡ ok w
      → Accounted os log w []
  unfolding create
  create-Accounted world false directory prefix config w none_yet e = cc
  create-Accounted world true directory prefix config w none_yet e =
      from_created (open_segment os fresh) (open_segment-Accounted os log fresh [] empty_account) e
    where
      fresh : Writer os
      fresh = fresh_writer os world directory prefix config

      empty_account : Accounted os log fresh []
      empty_account = record {
        groups = [];
        dropped = [];
        settled = [];
        waiting = [];
        stored = rw none_yet tt;
        merges = (refl, refl);
        all_lines = refl;
        pending_text = refl;
        pending_count = omega arith;
        dropped_count = omega arith;
        written_count = omega arith;
      }

      ok_same : (v w : Writer os) → created os (none, v) ≡ ok w → v ≡ w
      ok_same v w e = cc

      from_created :
          (step : Option JournalError × Writer os)
          → Accounted os log step.1 []
          → created os step ≡ ok w
          → Accounted os log w []
      from_created (some problem, w') h e = cc
      from_created (none, w') h e = subst (λ v. Accounted os log v []) (ok_same w' w e) h

  -- What an account says where nothing is dropped or pending.
  accepted-nothing_lost :
      (w : Writer os) (ls : List Bytes)
      → Accounted os log w ls
      → w.stats.dropped_records ≡ 0
      → w.pending ≡ []
      → length ls < 2 ^ 64
      → (groups : List (List Bytes)) × AllStored os w.config groups (log.accepted w.world)
        × (lines_of groups ≡ ls)
  accepted-nothing_lost w ls h no_drops no_pending small =
      let waiting = unlines-nil h.waiting (sym no_pending ∙ h.pending_text) in
      let all : ls ≡ h.settled =
        h.all_lines ∙ ap (λ x. h.settled ++ x) waiting ∙ append-nil h.settled in
      let count = Merges-length (lines_of h.groups) h.dropped h.settled h.merges in
      let dropped : h.dropped ≡ [] =
        length-zero h.dropped (omega (arith, h.dropped_count, ap length all)) in
      let stored =
        Merges-nil (lines_of h.groups) h.settled
          (subst (λ d. Merges (lines_of h.groups) d h.settled) dropped h.merges) in
      (h.groups, h.stored, stored ∙ sym all)

  pub write_lines-Accounted :
      (ls : List Bytes) (w : Writer os) (before : List Bytes)
      → Accounted os log w before
      → Accounted os log (write_lines os w ls) (before ++ ls)
  write_lines-Accounted [] w before h = subst (Accounted os log w) (sym (append-nil before)) h
  write_lines-Accounted (l ∷ ls) w before h =
      subst (Accounted os log (write_lines os ((write_line os w l).1) ls))
        (append_assoc before (l ∷ []) ls)
        (write_lines-Accounted ls ((write_line os w l).1) (before ++ l ∷ [])
          (write_line-Accounted os log w before l h))

  flush_out-pending : (w : Writer os) → (flush_out os w).1.pending ≡ w.pending
  unfolding flush_out
  flush_out-pending w = elim (Bool-cases ((os.flush_stream w.world).0)) [
    | inl e ↦ simp e
    | inr e ↦ simp e
  ]

  after_block-pending :
      (step : Option JournalError × Writer os) → (after_block os step).1.pending ≡ []
  after_block-pending (some problem, w) = refl
  after_block-pending (none, w) = flush_out-pending (clear_pending os w)

  flush-pending : (w : Writer os) → (flush os w).1.pending ≡ []
  unfolding flush
  flush-pending w = by_pending w.pending refl
    where
      by_pending : (p : Bytes) → w.pending ≡ p → (flush os w).1.pending ≡ []
      by_pending [] e = rw (flush, e) (flush_out-pending w ∙ e)
      by_pending (c ∷ text) e = rw (flush, e) (after_block-pending (write_block os w (c ∷ text)))

  create-Safe :
      (world : os.World) (is_directory : Bool) (directory prefix : Bytes)
      (config : JournalWriterConfig) (w : Writer os)
      → Settled os log world
      → create os world is_directory directory prefix config ≡ ok w
      → Safe os log 0 w
  unfolding create
  create-Safe world false directory prefix config w idle e = cc
  create-Safe world true directory prefix config w idle e =
      from_created (open_segment os fresh) (open_segment-Safe os log 0 fresh no_failure) e
    where
      fresh : Writer os
      fresh = fresh_writer os world directory prefix config

      no_failure : Safe os log 0 fresh
      no_failure = record { failures = 0; few = omega arith; counted = refl; kept = λ e. idle }

      ok_same : (v w : Writer os) → created os (none, v) ≡ ok w → v ≡ w
      ok_same v w e = cc

      from_created :
          (step : Option JournalError × Writer os)
          → Safe os log 0 step.1
          → created os step ≡ ok w
          → Safe os log 0 w
      from_created (some problem, w') h e = cc
      from_created (none, w') h e = subst (Safe os log 0) (ok_same w' w e) h

  write_lines-Safe :
      (ls : List Bytes) (n : ℕ) (w : Writer os)
      → Safe os log n w
      → (m : ℕ) × (m ≤ n + 2 * length ls) × Safe os log m (write_lines os w ls)
  write_lines-Safe [] n w h = (n, omega arith, h)
  write_lines-Safe (l ∷ ls) n w h =
      let (m, le, later) =
        write_lines-Safe ls (suc (suc n)) ((write_line os w l).1)
          (write_line-Safe os log n w l h) in
      (m, omega arith, later)

  -- A writer is created where nothing was written yet, is given lines, fewer than 2 ^ 62, and is flushed.
  -- If it then counts no failure and no dropped record, the blocks that have reached its files are
  -- exactly these lines, in order, in groups that are compressed as configured, through all rotations.
  pub flush-write_lines :
      (world : os.World) (is_directory : Bool) (directory prefix : Bytes)
      (config : JournalWriterConfig) (w : Writer os) (ls : List Bytes)
      → log.accepted world ≡ []
      → log.stored world ≡ []
      → log.buffered world ≡ []
      → create os world is_directory directory prefix config ≡ ok w
      → length ls < 2 ^ 62
      → (flush os (write_lines os w ls)).1.stats.write_failures ≡ 0
      → (flush os (write_lines os w ls)).1.stats.dropped_records ≡ 0
      → (groups : List (List Bytes)) × AllStored os
          (flush os (write_lines os w ls)).1.config
          groups
          (log.stored ((flush os (write_lines os w ls)).1.world))
        × (lines_of groups ≡ ls)
  flush-write_lines world is_directory directory prefix config w ls none_accepted none_stored
        none_buffered made small no_failure no_drops =
      let started =
        create-Accounted world is_directory directory prefix config w none_accepted made in
      let written = write_lines-Accounted ls w [] started in
      let (groups, all, same) =
        accepted-nothing_lost ((flush os (write_lines os w ls)).1) ls
          (flush-Accounted os log (write_lines os w ls) ls written) no_drops
          (flush-pending (write_lines os w ls)) (omega arith) in
      let safe =
        create-Safe world is_directory directory prefix config w
          (none_stored ∙ sym none_accepted, none_buffered) made in
      let (m, le, later) = write_lines-Safe ls 0 w safe in
      let flushed = flush-Safe os log m (write_lines os w ls) later in
      let settled = flushed.kept (omega (arith, flushed.counted, flushed.few)) in
      (
        groups,
        subst (AllStored os (flush os (write_lines os w ls)).1.config groups) (sym settled.0) all,
        same,
      )
