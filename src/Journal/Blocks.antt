-- ===== src/Journal/Blocks.antt =====
-- The branches of `write_block` on a text.
use eventbook.Prelude.{ℕ, ◌≡◌, true, false, some, ◌∷◌, Bytes, ok, failure}
use eventbook.Journal.{compression_failed}
use eventbook.Journal.Writer.{journal_problem, Platform, Writer, write_bytes, write_block}

module _ (os : Platform) (w : Writer os) where
  pub write_block-plain :
      (c : ℕ) (text : Bytes)
      → w.config.compress ≡ false
      → write_block os w (c ∷ text) ≡ write_bytes os w (c ∷ text)
  unfolding write_block
  write_block-plain c text off = simp off

  pub write_block-frame :
      (c : ℕ) (text frame : Bytes)
      → w.config.compress ≡ true
      → os.compress w.config.compression_level (c ∷ text) ≡ ok frame
      → write_block os w (c ∷ text) ≡ write_bytes os w frame
  unfolding write_block
  write_block-frame c text frame on e = simp (on, e)

  pub write_block-error :
      (c : ℕ) (text name : Bytes)
      → w.config.compress ≡ true
      → os.compress w.config.compression_level (c ∷ text) ≡ failure name
      → write_block os w (c ∷ text) ≡ (some (journal_problem compression_failed name), w)
  unfolding write_block
  write_block-error c text name on e = simp (on, e)
