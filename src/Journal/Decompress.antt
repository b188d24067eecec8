-- ===== src/Journal/Decompress.antt =====
-- What the compressed reader relies on of zstd, and the lines that it then reads from a whole file.
use eventbook.Prelude.{
  ℕ, zero, suc, ◌+◌, ◌≤◌, ◌≡◌, refl, false, List, [], ◌∷◌, ◌++◌, length, length-append, Bytes, ok,
  arith, ap, sym, ◌∙◌, subst,
}
use eventbook.Json.{JsonLibrary}
use eventbook.Journal.Lines.{
  take, drop, Decompressor, more, Stream, CompressedSource, decompress, decompress_chunk, refill,
}
use eventbook.Journal.Chunks.{Produces}
use eventbook.Journal.Reader.{compressed}
use eventbook.Journal.Reading.{IsLines, Takes, compressed-Takes}

-- `Yields c bytes text`: a context that is given these bytes, in pieces, yields this text. A call on a
-- piece that is not empty takes a part of it, hands out a part of the text, at least a byte of either,
-- and goes on with the bytes it left. Once all bytes are taken no text is left inside the context.
pub record StreamLaws (zstd : Decompressor) : Type 1 where
  pub Yields : zstd.Context → Bytes → Bytes → Type 0
  pub some_input : 1 ≤ zstd.input_size
  pub nothing_inside : (c : zstd.Context) (text : Bytes) → Yields c [] text → text ≡ []
  pub one_call :
      (c : zstd.Context) (x : ℕ) (piece later text : Bytes)
      → Yields c (x ∷ (piece ++ later)) text
      → (c' : zstd.Context) × (taken left out rest : Bytes) × (zstd.decompress_stream c (x ∷ piece)
          ≡ ok (c', left, out))
        × (x ∷ piece ≡ taken ++ left)
        × (1 ≤ length taken + length out)
        × (text ≡ out ++ rest)
        × Yields c' (left ++ later) rest

take-drop : (n : ℕ) (s : Bytes) → take n s ++ drop n s ≡ s
take-drop zero s = refl
take-drop (suc n) [] = refl
take-drop (suc n) (c ∷ s) = ap (λ t. c ∷ t) (take-drop n s)

take-nil : (n : ℕ) (s : Bytes) → 1 ≤ n → [] ≡ take n s → s ≡ []
take-nil zero s h e = absurd (omega arith)
take-nil (suc n) [] h e = refl
take-nil (suc n) (c ∷ s) h e = absurd (not_nil c (take n s) e)
  where
    not_nil : (c : ℕ) (t : Bytes) → [] ≡ c ∷ t → ⊥
    not_nil c t e = cc

module _ (zstd : Decompressor) (laws : StreamLaws zstd) where
  abbrev stream_of : zstd.Context → Bytes → Bytes → Stream zstd
  stream_of c input file = record { context = c; file = file; input = input }

  -- Nothing more than the bytes and the text that are left.
  abbrev size_left : Stream zstd → Bytes → ℕ
  size_left s text = length s.input + length s.file + length text

  abbrev Goes : ℕ → zstd.Context → Bytes → Bytes → Bytes → Type 0
  Goes size c input file text =
      (s : Stream zstd) × (out rest : Bytes) × (decompress zstd (stream_of c input file)
        ≡ more s out)
      × (text ≡ out ++ rest)
      × laws.Yields s.context (s.input ++ s.file) rest
      × (suc (size_left s rest) ≤ size)

  one_piece :
      (c : zstd.Context) (x : ℕ) (piece file text : Bytes)
      → laws.Yields c (x ∷ (piece ++ file)) text
      → Goes (length (x ∷ piece) + length file + length text) c (x ∷ piece) file text
  unfolding decompress
  one_piece c x piece file text h =
      let (c', taken, left, out, rest, e, e_piece, progress, e_text, later) =
        laws.one_call c x piece file text h in
      (
        stream_of c' left file,
        out,
        rest,
        rw (e, decompress) refl,
        e_text,
        later,
        omega (
          arith,
          ap length e_piece,
          ap length e_text,
          length-append taken left,
          length-append out rest,
          progress,
        ),
      )

  abbrev Reaches : ℕ → Type 0
  Reaches n =
      (c : zstd.Context) (input file text : Bytes)
      → laws.Yields c (input ++ file) text
      → suc (length input + length file + length text) ≤ n
      → (m : ℕ) × (suc m ≤ n) × Produces zstd m (stream_of c input file) text

  -- One call of zstd, and what is left after it.
  after_piece :
      (n : ℕ) (s : Stream zstd) (size : ℕ) (c : zstd.Context) (input file text : Bytes)
      → Reaches n
      → refill zstd s ≡ decompress zstd (stream_of c input file)
      → Goes size c input file text
      → suc size ≤ suc n
      → (m : ℕ) × (suc m ≤ suc n) × Produces zstd m s text
  after_piece n s size c input file text smaller e_refill (s', out, rest, e, e_text, later, less)
        le =
      let (m, m_le, produces) =
        smaller s'.context s'.input s'.file rest later (omega (arith, less)) in
      (suc m, omega arith, (s', out, rest, e_refill ∙ e, e_text, produces))

  by_chunk :
      (n : ℕ) (c : zstd.Context) (chunk file text : Bytes)
      → Reaches n
      → chunk ≡ take zstd.input_size file
      → laws.Yields c file text
      → suc (length file + length text) ≤ suc n
      → (m : ℕ) × (suc m ≤ suc n) × Produces zstd m (stream_of c [] file) text
  unfolding refill decompress_chunk
  by_chunk n c [] file text smaller e h le =
      let no_file = take-nil zstd.input_size file laws.some_input e in
      (
        0,
        omega arith,
        (
          rw (← e, refill, decompress_chunk) refl,
          laws.nothing_inside c text (subst (λ f. laws.Yields c f text) no_file h),
        ),
      )
  by_chunk n c (x ∷ piece) file text smaller e h le =
      let later = drop zstd.input_size file in
      let whole : x ∷ (piece ++ later) ≡ file =
        ap (λ t. t ++ later) e ∙ take-drop zstd.input_size file in
      after_piece n (stream_of c [] file) _ c (x ∷ piece) later text smaller
        (rw (← e, refill, decompress_chunk) refl)
        (one_piece c x piece later text (subst (λ f. laws.Yields c f text) (sym whole) h))
        (omega (arith, ap length whole, length-append piece later))

  -- The program's reading of the file in chunks gives the whole text.
  pub Yields-Produces : (n : ℕ) → Reaches n
  unfolding refill
  Yields-Produces zero c input file text h le = absurd (omega arith)
  Yields-Produces (suc n) c [] file text h le =
      by_chunk n c (take zstd.input_size file) file text (Yields-Produces n) refl h (omega arith)
  Yields-Produces (suc n) c (x ∷ piece) file text h le =
      after_piece n (stream_of c (x ∷ piece) file) _ c (x ∷ piece) file text (Yields-Produces n)
        refl (one_piece c x piece file text h) (omega arith)

  -- Of a compressed source whose decoded bytes, and the text that zstd yields for the bytes it has yet
  -- to be given, keeping none back once it has taken all of them, together are these lines, the calls of
  -- `next` take exactly these lines, as getline takes them of the text, and then find the end, with two
  -- turns more than the bytes and the text.
  pub compressed-lines :
      (lib : JsonLibrary) (to_string : ℕ → Bytes) (turns : ℕ) (ls : List Bytes)
      (s : CompressedSource zstd) (rest : Bytes)
      → s.source_exhausted ≡ false
      → laws.Yields s.stream.context (s.stream.input ++ s.stream.file) rest
      → length s.stream.input + length s.stream.file + length rest + 2 ≤ turns
      → IsLines ls (s.decoded ++ rest)
      → Takes zstd lib to_string turns ls (compressed s)
  compressed-lines lib to_string turns ls s rest going h enough lines =
      let size = length s.stream.input + length s.stream.file + length rest in
      let (m, m_le, produces) =
        Yields-Produces (suc size) s.stream.context s.stream.input s.stream.file rest h
          (omega arith) in
      compressed-Takes zstd lib to_string turns ls m s (s.decoded ++ rest)
        (rw going (rest, refl, produces)) (omega arith) lines
