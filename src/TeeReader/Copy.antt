-- ===== src/TeeReader/Copy.antt =====
-- The copy that a reader without error has made.
use locaccel.Prelude.{
  ℕ, ◌+◌, List, [], ◌∷◌, ◌++◌, true, false, ◌≡◌, arith, length, length-append, append-nil,
  append_assoc, ap, sym, ◌∙◌, ltb, ◌||◌, inl, inr, Bool-cases,
}
use locaccel.TeeReader.{Chunk, WriteResult, TeeReader, new, read, read_all}

-- The bytes that the caller was handed.
abbrev pub passed_on : List (Chunk × WriteResult) → List ℕ
passed_on [] = []
passed_on ((chunk, result) ∷ rest) = chunk.bytes ++ passed_on rest

-- Once there is an error there is always one.
read_sticky :
    (t : TeeReader) (c : Chunk) (w : WriteResult)
    → t.has_error ≡ true
    → (read t c w).has_error ≡ true
unfolding read
read_sticky t c w h = ground arith

read_all_sticky :
    (t : TeeReader) (rs : List (Chunk × WriteResult))
    → t.has_error ≡ true
    → (read_all t rs).has_error ≡ true
unfolding read_all
read_all_sticky t [] h = h
read_all_sticky t ((c, w) ∷ rs) h = read_all_sticky (read t c w) rs (read_sticky t c w h)

total-read :
    (t : TeeReader) (c : Chunk) (w : WriteResult)
    → (read t c w).total_read ≡ t.total_read + length c.bytes
unfolding read
total-read t c w = ground arith

nothing_appended : (xs ys : List ℕ) → ltb 0 (length ys) ≡ false → xs ++ ys ≡ xs
nothing_appended xs [] h = append-nil xs
nothing_appended xs (y ∷ ys) h = absurd (ground arith)

written-read :
    (t : TeeReader) (c : Chunk) (w : WriteResult)
    → (read t c w).has_error ≡ false
    → (t.has_error ≡ false) × ((read t c w).written ≡ t.written ++ c.bytes)
unfolding read
written-read t c w h = ground (arith, nothing_appended t.written c.bytes)

copied :
    (t : TeeReader) (rs : List (Chunk × WriteResult))
    → (read_all t rs).has_error ≡ false
    → ((read_all t rs).written ≡ t.written ++ passed_on rs)
      × ((read_all t rs).total_read ≡ t.total_read + length (passed_on rs))
unfolding read_all
copied t [] h = (sym (append-nil t.written), omega arith)
copied t ((c, w) ∷ rs) h =
    let (text, count) = copied (read t c w) rs h in
    let clean : (read t c w).has_error ≡ false = elim (Bool-cases (read t c w).has_error) [
      | inl e ↦ absurd (ground (arith, read_all_sticky (read t c w) rs e))
      | inr e ↦ e
    ] in
    let (_, step) = written-read t c w clean in
    (
      text ∙ ap (λ xs. xs ++ passed_on rs) step ∙ append_assoc t.written c.bytes (passed_on rs),
      omega (arith, total-read t c w, length-append c.bytes (passed_on rs)),
    )

-- An error is a read error or a write error.
read-has_error :
    (t : TeeReader) (c : Chunk) (w : WriteResult)
    → t.has_error ≡ (t.last_read_err || t.last_write_err)
    → (read t c w).has_error ≡ ((read t c w).last_read_err || (read t c w).last_write_err)
unfolding read
read-has_error t c w h = ground arith

pub read_all-has_error :
    (t : TeeReader) (rs : List (Chunk × WriteResult))
    → t.has_error ≡ (t.last_read_err || t.last_write_err)
    → (read_all t rs).has_error ≡ ((read_all t rs).last_read_err || (read_all t rs).last_write_err)
unfolding read_all
read_all-has_error t [] h = h
read_all-has_error t ((c, w) ∷ rs) h = read_all-has_error (read t c w) rs (read-has_error t c w h)

-- As long as no read and no write has failed, the copy holds exactly the bytes that the caller was
-- handed, in order, and the count that is reported on closing is their number.
pub written-passed_on :
    (rs : List (Chunk × WriteResult))
    → (read_all new rs).has_error ≡ false
    → ((read_all new rs).written ≡ passed_on rs)
      × ((read_all new rs).total_read ≡ length (passed_on rs))
written-passed_on rs h = let (text, count) = copied new rs h in (text, omega (arith, count))
