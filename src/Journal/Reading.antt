-- ===== src/Journal/Reading.antt =====
-- What `JournalReader::next` reads from a file, plain or compressed, in terms of its lines.
use eventbook.Prelude.{
  ℕ, zero, suc, ◌+◌, ◌≤◌, ◌<◌, ◌==◌, ◌≡◌, refl, false, Option, none, some, List, [], ◌∷◌, ◌++◌,
  length, All, Bytes, ok, failure, arith, Result-cases, inl, inr, ap, ◌∙◌, subst,
}
use eventbook.MarketState.{increment}
use eventbook.Json.{JsonLibrary}
use eventbook.Json.Writer.{newline}
use eventbook.Journal.{JournalRecord, JournalError}
use eventbook.Journal.Codec.{decode_journal_record}
use eventbook.Journal.Lines.{
  split_line, getline, Decompressor, LineRead, line, finished, failed, CompressedSource,
  next_compressed_line,
}
use eventbook.Journal.Chunks.{getline-some, Holds, SameLine, next_compressed_line-getline}
use eventbook.Journal.Reader.{
  next_plain_line, Source, plain, compressed, JournalReader, next_line, next, after_next,
  read_records,
}

-- The text is these lines.
abbrev pub IsLines : List Bytes → Bytes → Type 0
IsLines [] text = getline text ≡ none
IsLines (l ∷ ls) text = (rest : Bytes) × (getline text ≡ some (l, rest)) × IsLines ls rest

-- Lines that end in newlines.
abbrev pub unlines : List Bytes → Bytes
unlines [] = []
unlines (l ∷ ls) = l ++ newline ∷ unlines ls

split_line-newline :
    (l rest : Bytes)
    → All (λ c. (c == newline) ≡ false) l
    → split_line (l ++ newline ∷ rest) ≡ (l, some rest)
unfolding split_line
split_line-newline [] rest h = refl
split_line-newline (c ∷ l) rest h = rw (split_line-newline l rest h.1, h.0) refl

getline-newline :
    (l rest : Bytes)
    → All (λ c. (c == newline) ≡ false) l
    → getline (l ++ newline ∷ rest) ≡ some (l, rest)
getline-newline l rest h =
    let e = split_line-newline l rest h in
    getline-some (l ++ newline ∷ rest) rest (ap (λ p. p.1) e) ∙ ap (λ p. some (p.0, rest)) e

pub unlines-IsLines :
    (ls : List Bytes) → All (λ l. All (λ c. (c == newline) ≡ false) l) ls → IsLines ls (unlines ls)
unfolding getline
unlines-IsLines [] h = refl
unlines-IsLines (l ∷ ls) h =
    (unlines ls, getline-newline l (unlines ls) h.0, unlines-IsLines ls h.1)

module _ (zstd : Decompressor) (lib : JsonLibrary) (to_string : ℕ → Bytes) (turns : ℕ) where
  -- The calls of `next` take these lines, and then find the end of the file.
  abbrev pub Takes : List Bytes → Source zstd → Type 0
  Takes [] s = (s' : Source zstd) × (next_line zstd lib to_string turns s ≡ some (finished s'))
  Takes (l ∷ ls) s =
      (s' : Source zstd) × (next_line zstd lib to_string turns s ≡ some (line l s')) × Takes ls s'

  pub plain-Takes :
      (ls : List Bytes) (text : Bytes)
      → IsLines ls text
      → Takes ls (plain (record { text = text; is_bad = false }))
  unfolding next_line next_plain_line
  plain-Takes [] text h = (plain (record { text = text; is_bad = false }), rw h refl)
  plain-Takes (l ∷ ls) text (rest, e, h) =
      (plain (record { text = rest; is_bad = false }), rw e refl, plain-Takes ls rest h)

  at_finish :
      (n : ℕ) (read : Option (LineRead (CompressedSource zstd)))
      → SameLine zstd n read none
      → (s' : CompressedSource zstd) × (read ≡ some (finished s'))
  at_finish n (some (finished s)) h = (s, refl)
  at_finish n (some (line l s)) h = absurd h
  at_finish n (some (failed kind name s)) h = absurd h
  at_finish n none h = absurd h

  at_newline :
      (n : ℕ) (read : Option (LineRead (CompressedSource zstd))) (l rest : Bytes)
      → SameLine zstd n read (some (l, rest))
      → (s' : CompressedSource zstd) × (read ≡ some (line l s'))
        × ((m : ℕ) × (m ≤ n) × Holds zstd m s' rest)
  at_newline n (some (line l' s)) l rest (e, h) = (s, ap (λ x. some (line x s)) e, h)
  at_newline n (some (finished s)) l rest h = absurd h
  at_newline n (some (failed kind name s)) l rest h = absurd h
  at_newline n none l rest h = absurd h

  pub compressed-Takes :
      (ls : List Bytes) (n : ℕ) (s : CompressedSource zstd) (text : Bytes)
      → Holds zstd n s text
      → n + 2 ≤ turns
      → IsLines ls text
      → Takes ls (compressed s)
  unfolding next_line
  compressed-Takes [] n s text holds enough h =
      let same = next_compressed_line-getline zstd n turns s text holds enough in
      let (s', e) =
        at_finish n _ (subst (SameLine zstd n (next_compressed_line zstd turns s)) h same) in
      (compressed s', rw (e, next_line) refl)
  compressed-Takes (l ∷ ls) n s text holds enough (rest, e_text, h) =
      let same = next_compressed_line-getline zstd n turns s text holds enough in
      let (s', e, (m, le, later)) =
        at_newline n _ l rest
          (subst (SameLine zstd n (next_compressed_line zstd turns s)) e_text same) in
      (compressed s', rw (e, next_line) refl, compressed-Takes ls m s' rest later (omega arith) h)

  -- The records of the lines from a line number on, to the first line that does not decode.
  abbrev pub records_of : ℕ → List Bytes → List JournalRecord × Option JournalError
  records_of n [] = ([], none)
  records_of n ([] ∷ ls) = records_of (increment n) ls
  records_of n ((c ∷ t) ∷ ls) =
      let later = records_of (increment n) ls in
      elim (decode_journal_record lib to_string (c ∷ t)) [
        | failure e ↦ ([], some (record e { line = increment n }))
        | ok r ↦ (r ∷ later.0, later.1)
      ]

  after_next-records_of :
      (ls : List Bytes) (m n : ℕ) (r : JournalReader zstd)
      → Takes ls r.source
      → length ls < m
      → length ls ≤ n
      → after_next zstd lib to_string turns
          (read_records zstd lib to_string turns n)
          (next zstd lib to_string turns m r)
        ≡ some (records_of r.line_number ls)
  unfolding next read_records
  after_next-records_of ls zero n r takes lt le = absurd (omega arith)
  after_next-records_of [] (suc m) n r (s', e) lt le = rw (e, next) refl
  after_next-records_of ([] ∷ ls) (suc m) n r (s', e, takes) lt le =
      rw (e, next)
        (after_next-records_of ls m n
          (record { source = s'; line_number = increment r.line_number }) takes (omega arith)
          (omega arith))
  after_next-records_of ((c ∷ t) ∷ ls) (suc m) zero r (s', e, takes) lt le = absurd (omega arith)
  after_next-records_of ((c ∷ t) ∷ ls) (suc m) (suc n) r (s', e, takes) lt le =
      let r' : JournalReader zstd = record { source = s'; line_number = increment r.line_number } in
      elim (Result-cases (decode_journal_record lib to_string (c ∷ t))) [
        | inl (error, d) ↦ rw (e, next, records_of, d) refl
        | inr (entry, d) ↦
            let later = after_next-records_of ls (suc n) n r' takes (omega arith) (omega arith) in
            rw (e, next, records_of, d, later) refl
      ]

  -- A file that gives these lines is read to the records of the lines.
  pub read_records-records_of :
      (ls : List Bytes) (n : ℕ) (r : JournalReader zstd)
      → Takes ls r.source
      → length ls < n
      → read_records zstd lib to_string turns n r ≡ some (records_of r.line_number ls)
  unfolding read_records
  read_records-records_of ls zero r takes lt = absurd (omega arith)
  read_records-records_of ls (suc n) r takes lt =
      after_next-records_of ls (suc n) n r takes lt (omega arith)
