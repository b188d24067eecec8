-- ===== src/Journal/Segments.antt =====
-- The name that `open_segment` chooses, and `list_journal_segments`.
use eventbook.Prelude.{
  ℕ, zero, suc, ◌+◌, ◌≤◌, ◌==◌, leb, ◌≡◌, refl, ◌⊎◌, inl, inr, Bool, true, false, ◌&&◌, ◌||◌, List,
  [], ◌∷◌, if◌then◌else◌, Bytes, codes, arith, Bool-cases, ==_iff,
}
use eventbook.WsProtocol.{StdSort}
use eventbook.Journal.Writer.{Platform, Writer, candidate, free_candidate}

module _ (os : Platform) (w : Writer os) (stamp : Bytes) (world : os.World) where
  -- The name is that of some counter from the first to the last. Either no file has it or it is the
  -- last, and the names before it are all those of files.
  pub free_candidate-is_first :
      (left counter : ℕ)
      → (k : ℕ) × (counter ≤ k)
        × (k ≤ counter + left)
        × (free_candidate os w stamp world left counter ≡ candidate os w stamp k)
        × ((n : ℕ) → counter ≤ n → suc n ≤ k → os.exists world (candidate os w stamp n) ≡ true)
        × ((os.exists world (candidate os w stamp k) ≡ false) ⊎ (k ≡ counter + left))
  unfolding free_candidate
  free_candidate-is_first zero counter =
      (counter, omega arith, omega arith, refl, λ n le lt. absurd (omega arith), inr (omega arith))
  free_candidate-is_first (suc left) counter =
      elim (Bool-cases (os.exists world (candidate os w stamp counter))) [
        | inr e ↦
            (counter, omega arith, omega arith, rw e refl, λ n le lt. absurd (omega arith), inl e)
        | inl e ↦
            let (k, above, below, same, all, last) = free_candidate-is_first left (counter + 1) in
            (
              k,
              omega arith,
              omega arith,
              rw e same,
              λ n le lt. at_or_after n e all le lt,
              elim last [ inl fresh ↦ inl fresh | inr at_end ↦ inr (omega arith) ],
            )
      ]
    where
      at_or_after :
          {k : ℕ} (n : ℕ)
          → os.exists world (candidate os w stamp counter) ≡ true
          → ((m : ℕ)
              → counter + 1 ≤ m
              → suc m ≤ k
              → os.exists world (candidate os w stamp m) ≡ true)
          → counter ≤ n
          → suc n ≤ k
          → os.exists world (candidate os w stamp n) ≡ true
      at_or_after n here later le lt = elim (Bool-cases (n == counter)) [
        | inl e ↦ rw ((==_iff n counter).0 e) here
        | inr e ↦ later n (ground arith) lt
      ]

abbrev pub starts_with : Bytes → Bytes → Bool
starts_with [] s = true
starts_with (c ∷ t) [] = false
starts_with (c ∷ t) (d ∷ s) = (c == d) && starts_with t s

-- `name.find(part) != npos`.
abbrev pub contains : Bytes → Bytes → Bool
contains part [] = starts_with part []
contains part (c ∷ s) = starts_with part (c ∷ s) || contains part s

abbrev pub is_segment : Bytes → Bool × Bytes → Bool
is_segment prefix (is_regular, name) =
    is_regular && contains (codes ".jsonl") name && starts_with prefix name

abbrev pub segment_names : Bytes → List (Bool × Bytes) → List Bytes
segment_names prefix [] = []
segment_names prefix (entry ∷ entries) =
    let rest = segment_names prefix entries in
    if is_segment prefix entry then entry.1 ∷ rest else rest

abbrev pub before_text : Bytes → Bytes → Bool
before_text s [] = false
before_text [] (d ∷ t) = true
before_text (c ∷ s) (d ∷ t) = leb (suc c) d || ((c == d) && before_text s t)

-- The entries of a directory are whether each is a regular file, and its name; one directory's paths
-- are ordered as its names.
unfoldable pub list_journal_segments : StdSort → Bool → List (Bool × Bytes) → Bytes → List Bytes
list_journal_segments std is_directory entries prefix =
    if is_directory then std.sort before_text (segment_names prefix entries) else []
