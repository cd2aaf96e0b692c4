-- ===== src/FileCache/Ingestion/Complete.antt =====
-- Only whole files are ingested.
use locaccel.Prelude.{ℕ, String, List, [], ◌∷◌, ◌++◌, Option, none, some, false, ◌≡◌, arith}
use locaccel.Prelude.Int.{ℤ}
use locaccel.TeeReader.{TeeReader}
use locaccel.FileCache.Ingestion.{Call, on_ingest, on_cleanup, Answers, Ingestion, finish, close}

-- The hash that the calls report as ingested.
abbrev pub ingested : List Call → Option String
ingested [] = none
ingested (on_ingest hash ∷ calls) = some hash
ingested (call ∷ calls) = ingested calls

module _ (hash : List ℕ → String) (quota_high : ℤ) where
  -- The first closing releases the entry at the end, whatever happened before; the second does
  -- nothing at all.
  close_twice :
      (i : Ingestion) (first second : Answers)
      → i.was_called ≡ false
      → ((close hash quota_high i first).1
          ≡ some (finish hash quota_high i.reader first ++ on_cleanup ∷ []))
        × (close hash quota_high (close hash quota_high i first).0 second
            ≡ ((close hash quota_high i first).0, none))
  unfolding close
  close_twice i first second h = (ground (arith, h), ground (arith, h))
