-- ===== src/Journal/Chunks.antt =====
-- `next_compressed_line` against `getline` on the whole decompressed text.
use eventbook.Prelude.{
  ℕ, zero, suc, ◌+◌, ◌≤◌, ◌≡◌, refl, Bool, true, false, Option, none, some, [], ◌∷◌, ◌++◌, Bytes,
  arith, Option-cases, inl, inr, append-nil, append_assoc, ap, sym, ◌∙◌, subst,
}
use eventbook.Journal.Lines.{
  split_line, getline, Decompressor, exhausted, more, LineRead, line, finished, failed, Stream,
  CompressedSource, refill, next_compressed_line,
}

-- A newline that is found in a text is found in every longer text.
pub split_line-append :
    (s t rest : Bytes)
    → (split_line s).1 ≡ some rest
    → split_line (s ++ t) ≡ ((split_line s).0, some (rest ++ t))
unfolding split_line
split_line-append [] t rest h = cc
split_line-append (c ∷ s) t rest h = ground (arith, split_line-append s t rest)

pub split_line-none : (s : Bytes) → (split_line s).1 ≡ none → (split_line s).0 ≡ s
unfolding split_line
split_line-none [] h = refl
split_line-none (c ∷ s) h = ground (arith, split_line-none s)

split_line_nil : split_line [] ≡ ([], none)
unfolding split_line
split_line_nil = refl

pub getline-some :
    (s later : Bytes) → (split_line s).1 ≡ some later → getline s ≡ some ((split_line s).0, later)
unfolding getline
getline-some [] later e = absurd (nothing_found later (ap (λ p. p.1) (sym split_line_nil) ∙ e))
  where
    nothing_found : (later : Bytes) → none ≡ some later → ⊥
    nothing_found later e = cc
getline-some (c ∷ s) later e = rw (e, getline) refl

module _ (zstd : Decompressor) where
  -- The stream gives the text in n calls of zstd, and ends without an error.
  abbrev pub Produces : ℕ → Stream zstd → Bytes → Type 0
  Produces zero s text = (refill zstd s ≡ exhausted) × (text ≡ [])
  Produces (suc n) s text =
      (s' : Stream zstd) × (out rest : Bytes) × (refill zstd s ≡ more s' out)
      × (text ≡ out ++ rest)
      × Produces n s' rest

  -- What is still to be read from a source: the decoded bytes, and those that the stream will give.
  abbrev pub Holds : ℕ → CompressedSource zstd → Bytes → Type 0
  Holds n s text = elim s.source_exhausted [
    | true ↦ s.decoded ≡ text
    | false ↦ (rest : Bytes) × (text ≡ s.decoded ++ rest) × Produces n s.stream rest
  ]

  abbrev pub SameLine :
      ℕ → Option (LineRead (CompressedSource zstd)) → Option (Bytes × Bytes) → Type 0
  SameLine n (some (line l s)) (some (l', text)) = (l ≡ l') × ((m : ℕ) × (m ≤ n) × Holds m s text)
  SameLine n (some (finished s)) none = Unit
  SameLine n _ _ = ⊥

  SameLine-suc :
      (n : ℕ) (read : Option (LineRead (CompressedSource zstd))) (o : Option (Bytes × Bytes))
      → SameLine n read o
      → SameLine (suc n) read o
  SameLine-suc n (some (line l s)) (some (l', text)) (e, (m, le, h)) = (e, (m, omega arith, h))
  SameLine-suc n (some (finished s)) none h = tt
  SameLine-suc n (some (line l s)) none h = absurd h
  SameLine-suc n (some (finished s)) (some (l', text)) h = absurd h
  SameLine-suc n (some (failed kind name s)) o h = absurd h
  SameLine-suc n none o h = absurd h

  abbrev at_end : Stream zstd → Bytes → CompressedSource zstd
  at_end stream decoded = record { stream = stream; decoded = decoded; source_exhausted = true }

  abbrev midway : Stream zstd → Bytes → CompressedSource zstd
  midway stream decoded = record { stream = stream; decoded = decoded; source_exhausted = false }

  SameLine-at_end :
      (k n : ℕ) (stream : Stream zstd) (decoded : Bytes)
      → SameLine n (next_compressed_line zstd (suc k) (at_end stream decoded)) (getline decoded)
  unfolding next_compressed_line getline
  SameLine-at_end k n stream [] = rw (split_line_nil, next_compressed_line) tt
  SameLine-at_end k n stream (c ∷ t) = elim (Option-cases ((split_line (c ∷ t)).1)) [
    | inl e ↦
        rw (e, next_compressed_line, getline)
          (sym (split_line-none (c ∷ t) e), (0, omega arith, refl))
    | inr (rest, e) ↦ rw (e, next_compressed_line, getline) (refl, (0, omega arith, refl))
  ]

  SameLine-newline :
      (k n : ℕ) (s : CompressedSource zstd) (later rest : Bytes)
      → (split_line s.decoded).1 ≡ some later
      → Holds n (record s { decoded = later }) (later ++ rest)
      → SameLine n (next_compressed_line zstd (suc k) s) (getline (s.decoded ++ rest))
  unfolding next_compressed_line
  SameLine-newline k n s later rest e h =
      let whole =
        getline-some (s.decoded ++ rest) (later ++ rest)
          (ap (λ p. p.1) (split_line-append s.decoded rest later e)) in
      let same = ap (λ p. p.0) (split_line-append s.decoded rest later e) in
      rw (e, whole, next_compressed_line) (sym same, (n, omega arith, h))

  -- With a turn for each call of zstd, one for the end of the file and one for the line, the loop gives
  -- the line that getline gives on the whole text.
  pub SameLine-midway :
      (n k : ℕ) (stream : Stream zstd) (decoded rest : Bytes)
      → Produces n stream rest
      → n + 2 ≤ k
      → SameLine n (next_compressed_line zstd k (midway stream decoded)) (getline (decoded ++ rest))
  unfolding next_compressed_line
  SameLine-midway n zero stream decoded rest h fuel = absurd (omega arith)
  SameLine-midway zero (suc zero) stream decoded rest h fuel = absurd (omega arith)
  SameLine-midway zero (suc (suc k)) stream decoded rest h fuel =
      elim (Option-cases ((split_line decoded).1)) [
        | inl e ↦
            rw (e, h.0, next_compressed_line, h.1, append-nil decoded)
              (SameLine-at_end k 0 stream decoded)
        | inr (later, e) ↦
            SameLine-newline (suc k) 0 (midway stream decoded) later rest e (rest, refl, h)
      ]
  SameLine-midway (suc n) (suc k) stream decoded rest h fuel =
      let (s', out, produced, e_refill, e_text, produces) = h in
      elim (Option-cases ((split_line decoded).1)) [
        | inl e ↦
            rw (e, e_refill, next_compressed_line, e_text, ← append_assoc decoded out produced)
              (SameLine-suc n _ _
                (SameLine-midway n k s' (decoded ++ out) produced produces (omega arith)))
        | inr (later, e) ↦
            SameLine-newline k (suc n) (midway stream decoded) later rest e (rest, refl, h)
      ]

  -- Of a source that still holds a text, with n calls of zstd to come, the loop takes in n + 2 turns the
  -- line that getline takes of the whole text, or finds the end with it, and then holds what is left.
  pub next_compressed_line-getline :
      (n k : ℕ) (s : CompressedSource zstd) (text : Bytes)
      → Holds n s text
      → n + 2 ≤ k
      → SameLine n (next_compressed_line zstd k s) (getline text)
  next_compressed_line-getline n k s text h fuel =
      by_state n k s.stream s.decoded s.source_exhausted text h fuel
    where
      by_state :
          (n k : ℕ) (stream : Stream zstd) (decoded : Bytes) (b : Bool) (text : Bytes)
          → Holds n (record { stream = stream; decoded = decoded; source_exhausted = b }) text
          → n + 2 ≤ k
          → SameLine n
              (next_compressed_line zstd k
                (record { stream = stream; decoded = decoded; source_exhausted = b }))
              (getline text)
      by_state n zero stream decoded b text h fuel = absurd (omega arith)
      by_state n (suc k) stream decoded true text h fuel =
          subst
            (λ t.
              SameLine n (next_compressed_line zstd (suc k) (at_end stream decoded)) (getline t))
            h (SameLine-at_end k n stream decoded)
      by_state n (suc k) stream decoded false text h fuel =
          subst
            (λ t.
              SameLine n (next_compressed_line zstd (suc k) (midway stream decoded)) (getline t))
            (sym h.1) (SameLine-midway n (suc k) stream decoded h.0 h.2 fuel)
