-- ===== src/FileCache/Ingestion.antt =====
-- `FileCache.SetupIngestion`: what closing the reader that it returns does.
pub mod Complete
use locaccel.Prelude.{
  ℕ, String, List, [], ◌∷◌, ◌++◌, Option, none, some, Bool, true, false, not, ◌&&◌, ◌||◌, length,
  eqb, if◌then◌else◌,
}
use locaccel.Prelude.Int.{ℤ, pos, quot_ℤ, ltb_ℤ}
use locaccel.TeeReader.{TeeReader, Chunk, ReadErr, eof, fine, broken}

-- The calls that closing makes, in order.
pub data Call : Type 0 where
  close_dest remove_tmp close_src on_cleanup : Call
  rename on_ingest : String → Call

-- What the file system and the source answer.
pub record Answers : Type 0 where
  -- the read of one more byte
  pub probe : Chunk
  pub renames : Bool
  pub closes_dest : Bool

pub record Ingestion : Type 0 where
  pub reader : TeeReader
  pub was_called : Bool

abbrev pub cleanup : List Call
cleanup = close_dest ∷ remove_tmp ∷ close_src ∷ []

abbrev is_eof : ReadErr → Bool
is_eof eof = true
is_eof _ = false

-- `hash` is the hex digest of BLAKE3 over what was written.
module _ (hash : List ℕ → String) (quota_high : ℤ) where
  unfoldable pub finish : TeeReader → Answers → List Call
  finish t answers =
      if ltb_ℤ (quot_ℤ quota_high 2) (pos t.total_read)
      then cleanup
      else if t.last_read_err || t.last_write_err
      then cleanup
      else if not (is_eof answers.probe.err) || not (eqb (length answers.probe.bytes) 0)
      then cleanup
      else if not answers.renames
      then cleanup
      else if not answers.closes_dest
      then rename (hash t.written) ∷ close_dest ∷ close_src ∷ []
      else rename (hash t.written) ∷ close_dest ∷ on_ingest (hash t.written) ∷ close_src ∷ []

  -- The second result is none for `ErrAlreadyClosed`. The deferred cleanup comes last.
  unfoldable pub close : Ingestion → Answers → Ingestion × Option (List Call)
  unfolding finish
  close i answers =
      if i.was_called
      then (i, none)
      else (record i { was_called = true }, some (finish i.reader answers ++ on_cleanup ∷ []))
