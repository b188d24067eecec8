-- ===== src/Journal/Ledger.antt =====
-- The account of a `JournalWriter`: which of the lines it was given are in blocks that a stream took,
-- which were dropped, and which are pending.
use eventbook.Prelude.{
  ℕ, ◌%◌, ◌^◌, ◌≡◌, refl, ◌⊎◌, inl, inr, Bool, true, false, List, [], ◌∷◌, ◌++◌, length,
  length-append, Bytes, ok, arith, ap, sym, ◌∙◌, subst, append-nil, append_assoc,
}
use eventbook.MarketState.{increment}
use eventbook.Json.Writer.{newline}
use eventbook.Journal.Writer.{Platform, JournalWriterConfig, add_uint64}
use eventbook.Journal.Reading.{unlines}

-- The third list is the first two, each in its order, put together.
abbrev pub Merges : List Bytes → List Bytes → List Bytes → Type 0
Merges xs ys [] = (xs ≡ []) × (ys ≡ [])
Merges xs ys (z ∷ zs) =
    ((xs' : List Bytes) × (xs ≡ z ∷ xs') × Merges xs' ys zs)
    ⊎ ((ys' : List Bytes) × (ys ≡ z ∷ ys') × Merges xs ys' zs)

Merges-left_only : (ws : List Bytes) → Merges ws [] ws
Merges-left_only [] = (refl, refl)
Merges-left_only (w ∷ ws) = inl (ws, refl, Merges-left_only ws)

Merges-right_only : (ws : List Bytes) → Merges [] ws ws
Merges-right_only [] = (refl, refl)
Merges-right_only (w ∷ ws) = inr (ws, refl, Merges-right_only ws)

Merges-append_left : (xs ys zs ws : List Bytes) → Merges xs ys zs → Merges (xs ++ ws) ys (zs ++ ws)
Merges-append_left xs ys [] ws (ex, ey) = rw (ex, ey) (Merges-left_only ws)
Merges-append_left xs ys (z ∷ zs) ws (inl (xs', e, h)) =
    inl (xs' ++ ws, ap (λ l. l ++ ws) e, Merges-append_left xs' ys zs ws h)
Merges-append_left xs ys (z ∷ zs) ws (inr (ys', e, h)) =
    inr (ys', e, Merges-append_left xs ys' zs ws h)

Merges-append_right : (xs ys zs ws : List Bytes) → Merges xs ys zs → Merges xs (ys ++ ws) (zs ++ ws)
Merges-append_right xs ys [] ws (ex, ey) = rw (ex, ey) (Merges-right_only ws)
Merges-append_right xs ys (z ∷ zs) ws (inl (xs', e, h)) =
    inl (xs', e, Merges-append_right xs' ys zs ws h)
Merges-append_right xs ys (z ∷ zs) ws (inr (ys', e, h)) =
    inr (ys' ++ ws, ap (λ l. l ++ ws) e, Merges-append_right xs ys' zs ws h)

unlines-append :
    (xs : List Bytes) (l : Bytes) → unlines (xs ++ l ∷ []) ≡ unlines xs ++ l ++ newline ∷ []
unlines-append [] l = refl
unlines-append (x ∷ xs) l = simp (append_assoc, unlines-append xs l)

abbrev pub lines_of : List (List Bytes) → List Bytes
lines_of [] = []
lines_of (g ∷ gs) = g ++ lines_of gs

lines_of-append :
    (gs : List (List Bytes)) (g : List Bytes) → lines_of (gs ++ g ∷ []) ≡ lines_of gs ++ g
lines_of-append [] g = append-nil g
lines_of-append (x ∷ gs) g = rw (lines_of-append gs g) (sym (append_assoc x (lines_of gs) g))

module _ (os : Platform) (config : JournalWriterConfig) where
  -- What a stream is given for a text, compressed or not.
  abbrev pub StoredIf : Bool → Bytes → Bytes → Type 0
  StoredIf true text block = os.compress config.compression_level text ≡ ok block
  StoredIf false text block = block ≡ text

  abbrev pub Stored : Bytes → Bytes → Type 0
  Stored text block = StoredIf config.compress text block

  abbrev pub AllStored : List (List Bytes) → List Bytes → Type 0
  AllStored [] [] = Unit
  AllStored (g ∷ gs) (b ∷ bs) = Stored (unlines g) b × AllStored gs bs
  AllStored _ _ = ⊥

  AllStored-append :
      (gs : List (List Bytes)) (bs : List Bytes) (g : List Bytes) (b : Bytes)
      → AllStored gs bs
      → Stored (unlines g) b
      → AllStored (gs ++ g ∷ []) (bs ++ b ∷ [])
  AllStored-append [] [] g b h s = (s, tt)
  AllStored-append [] (x ∷ bs) g b h s = absurd h
  AllStored-append (x ∷ gs) [] g b h s = absurd h
  AllStored-append (x ∷ gs) (y ∷ bs) g b h s = (h.0, AllStored-append gs bs g b h.1 s)

  -- The lines so far are the settled ones and the pending ones; of the settled ones some were dropped,
  -- and the rest are in the blocks, group by group.
  pub record Ledger (blocks : List Bytes) (pending : Bytes)
      (pending_records dropped_records records_written : ℕ) (ls : List Bytes) : Type 0 where
    pub groups : List (List Bytes)
    pub dropped : List Bytes
    pub settled : List Bytes
    pub waiting : List Bytes
    pub stored : AllStored groups blocks
    pub merges : Merges (lines_of groups) dropped settled
    pub all_lines : ls ≡ settled ++ waiting
    pub pending_text : pending ≡ unlines waiting
    pub pending_count : pending_records ≡ length waiting % 2 ^ 64
    pub dropped_count : dropped_records ≡ length dropped % 2 ^ 64
    pub written_count : records_written ≡ length ls % 2 ^ 64

  module _ (blocks : List Bytes) (pending : Bytes) (n d wr : ℕ) (ls : List Bytes)
      (h : Ledger blocks pending n d wr ls) where
    pub Ledger-taken : (b : Bytes) → Stored pending b → Ledger (blocks ++ b ∷ []) [] 0 d wr ls
    Ledger-taken b s = record {
      groups = h.groups ++ h.waiting ∷ [];
      dropped = h.dropped;
      settled = h.settled ++ h.waiting;
      waiting = [];
      stored =
          AllStored-append h.groups blocks h.waiting b h.stored
            (subst (λ t. Stored t b) h.pending_text s);
      merges =
          rw (lines_of-append h.groups h.waiting)
            (Merges-append_left (lines_of h.groups) h.dropped h.settled h.waiting h.merges);
      all_lines = h.all_lines ∙ sym (append-nil (h.settled ++ h.waiting));
      pending_text = refl;
      pending_count = omega arith;
      dropped_count = h.dropped_count;
      written_count = h.written_count;
    }

    pub Ledger-dropped : Ledger blocks [] 0 (add_uint64 d n) wr ls
    Ledger-dropped = record {
      groups = h.groups;
      dropped = h.dropped ++ h.waiting;
      settled = h.settled ++ h.waiting;
      waiting = [];
      stored = h.stored;
      merges = Merges-append_right (lines_of h.groups) h.dropped h.settled h.waiting h.merges;
      all_lines = h.all_lines ∙ sym (append-nil (h.settled ++ h.waiting));
      pending_text = refl;
      pending_count = omega arith;
      dropped_count =
          omega (arith, h.dropped_count, h.pending_count, length-append h.dropped h.waiting);
      written_count = h.written_count;
    }

    pub Ledger-line :
        (l : Bytes)
        → Ledger blocks (pending ++ l ++ newline ∷ []) (increment n) d (increment wr) (ls ++ l ∷ [])
    Ledger-line l = record {
      groups = h.groups;
      dropped = h.dropped;
      settled = h.settled;
      waiting = h.waiting ++ l ∷ [];
      stored = h.stored;
      merges = h.merges;
      all_lines = ap (λ x. x ++ l ∷ []) h.all_lines ∙ append_assoc h.settled h.waiting (l ∷ []);
      pending_text =
          ap (λ x. x ++ l ++ newline ∷ []) h.pending_text ∙ sym (unlines-append h.waiting l);
      pending_count = omega (arith, h.pending_count, length-append h.waiting (l ∷ []));
      dropped_count = h.dropped_count;
      written_count = omega (arith, h.written_count, length-append ls (l ∷ []));
    }
