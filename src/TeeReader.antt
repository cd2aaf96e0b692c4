-- ===== src/TeeReader.antt =====
-- internal/teereader/teereader.go: a reader that writes what it reads to a second place.
pub mod Copy
use locaccel.Prelude.{
  ℕ, ◌+◌, ◌<◌, ◌≡◌, List, [], ◌∷◌, ◌++◌, Bool, true, false, length, ltb, if◌then◌else◌, ◌||◌, not,
  ◌&&◌,
}

-- What one call of `src.Read` gives: the bytes, and the error.
pub data ReadErr : Type 0 where
  fine eof broken : ReadErr

pub record Chunk : Type 0 where
  pub bytes : List ℕ
  pub err : ReadErr

-- The fields of the reader. `written` is what `dest` holds: the writes that succeeded, one after
-- the other, and what of a failed one went through.
pub record TeeReader : Type 0 where
  pub last_read_err : Bool
  pub last_write_err : Bool
  pub has_error : Bool
  pub total_read : ℕ
  pub written : List ℕ

abbrev pub new : TeeReader
new = record {
  last_read_err = false;
  last_write_err = false;
  has_error = false;
  total_read = 0;
  written = [];
}

abbrev pub is_broken : ReadErr → Bool
is_broken broken = true
is_broken _ = false

-- `dest.Write`, for a destination that takes the whole of a write, or fails after a part of it
pub data WriteResult : Type 0 where
  whole : WriteResult
  partial : List ℕ → WriteResult

abbrev write : List ℕ → WriteResult → TeeReader → TeeReader
write bytes whole t = record t { written = t.written ++ bytes }
write bytes (partial part) t = record t {
  written = t.written ++ part;
  has_error = true;
  last_write_err = true;
}

abbrev note_read_err : Bool → TeeReader → TeeReader
note_read_err true t = record t { has_error = true; last_read_err = true }
note_read_err false t = t

-- the bytes and the error go on to the caller as they are
unfoldable pub read : TeeReader → Chunk → WriteResult → TeeReader
read t chunk result =
    let n = length chunk.bytes in
    if t.has_error
    then record t { total_read = t.total_read + n }
    else let u = note_read_err (is_broken chunk.err) t in
      let v = if ltb 0 n then write chunk.bytes result u else u in
      record v { total_read = v.total_read + n }

-- A sequence of reads.
unfoldable pub read_all : TeeReader → List (Chunk × WriteResult) → TeeReader
read_all t [] = t
read_all t ((chunk, result) ∷ rest) = read_all (read t chunk result) rest
