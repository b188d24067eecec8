-- ===== src/Journal/Lines.antt =====
-- Lines of a text, and `next_compressed_line` of `JournalReader::Impl`. zstd and the sizes of its
-- buffers are parameters; of `decoded` the model keeps the bytes from `decoded_offset` on, so that
-- compacting it changes nothing.
use eventbook.Prelude.{
  ℕ, zero, suc, ◌==◌, Bool, true, false, Option, none, some, [], ◌∷◌, ◌++◌, if◌then◌else◌, Bytes,
  Result, ok, failure,
}
use eventbook.Json.Writer.{newline}
use eventbook.Journal.{JournalErrorKind, decompression_failed}

-- The bytes before the first newline, and those after it.
unfoldable pub split_line : Bytes → Bytes × Option Bytes
split_line [] = ([], none)
split_line (c ∷ t) =
    let (line, rest) = split_line t in if c == newline then ([], some t) else (c ∷ line, rest)

-- `std::getline`: nothing at the end of the text, else a line and the bytes after it.
unfoldable pub getline : Bytes → Option (Bytes × Bytes)
getline [] = none
getline (c ∷ t) =
    let (line, rest) = split_line (c ∷ t) in
    elim rest [ some later ↦ some (line, later) | none ↦ some (line, []) ]

abbrev pub take : ℕ → Bytes → Bytes
take zero s = []
take (suc n) [] = []
take (suc n) (c ∷ s) = c ∷ take n s

abbrev pub drop : ℕ → Bytes → Bytes
drop zero s = s
drop (suc n) [] = []
drop (suc n) (c ∷ s) = drop n s

-- `ZSTD_decompressStream`: the context after the call, the input it left and its output, or the name
-- of an error.
pub record Decompressor : Type 1 where
  pub Context : Type 0
  pub input_size : ℕ
  pub decompress_stream : Context → Bytes → Result (Context × Bytes × Bytes) Bytes

pub data Refill {ℓ} (S : Type ℓ) : Type ℓ where
  exhausted : Refill S
  broken : Bytes → Refill S
  more : S → Bytes → Refill S

pub data LineRead {ℓ} (S : Type ℓ) : Type ℓ where
  line : Bytes → S → LineRead S
  finished : S → LineRead S
  failed : JournalErrorKind → Bytes → S → LineRead S

module _ (zstd : Decompressor) where
  pub record Stream : Type 0 where
    pub context : zstd.Context
    -- What `in` has not read.
    pub file : Bytes
    -- The bytes of `input` from `input_offset` on.
    pub input : Bytes

  pub record CompressedSource : Type 0 where
    pub stream : Stream
    pub decoded : Bytes
    pub source_exhausted : Bool

  unfoldable pub decompress : Stream → Refill Stream
  decompress s = elim (zstd.decompress_stream s.context s.input) [
    | failure name ↦ broken name
    | ok (context, input, out) ↦ more (record s { context = context; input = input }) out
  ]

  unfoldable pub decompress_chunk : Bytes → Stream → Refill Stream
  decompress_chunk [] s = exhausted
  decompress_chunk (c ∷ t) s =
      decompress (record s { input = c ∷ t; file = drop zstd.input_size s.file })

  -- The reading of `in` into an empty `input`, and one call of zstd.
  unfoldable pub refill : Stream → Refill Stream
  refill s = elim s.input [
    | [] ↦ decompress_chunk (take zstd.input_size s.file) s
    | _ ∷ _ ↦ decompress s
  ]

  abbrev pub last_line : CompressedSource → LineRead CompressedSource
  last_line s = elim s.decoded [
    | [] ↦ finished s
    | c ∷ t ↦ line (c ∷ t) (record s { decoded = [] })
  ]

  -- One turn of the loop for each unit of the first argument; `none` where they do not suffice.
  unfoldable pub next_compressed_line : ℕ → CompressedSource → Option (LineRead CompressedSource)
  next_compressed_line zero s = none
  next_compressed_line (suc n) s =
      let (l, rest) = split_line s.decoded in
      elim rest [
        | some later ↦ some (line l (record s { decoded = later }))
        | none ↦ elim s.source_exhausted [
          | true ↦ some (last_line s)
          | false ↦ elim (refill s.stream) [
            | exhausted ↦ next_compressed_line n (record s { source_exhausted = true })
            | broken name ↦ some (failed decompression_failed name s)
            | more stream out ↦
                next_compressed_line n (record s { stream = stream; decoded = s.decoded ++ out })
          ]
        ]
      ]
