-- ===== src/Tests/FileCache.antt =====
-- The file cache and the copying reader on small directories and sources.
use locaccel.Prelude.{
  ℕ, String, List, [], ◌∷◌, ◌++◌, Option, none, some, eqb, Bool, true, false, ◌≡◌, refl, length,
  ◌==◌, if◌then◌else◌,
}
use locaccel.Prelude.Int.{◌-ℤ◌, pos}
use locaccel.Prelude.Panic.{returns, panics}
use locaccel.TeeReader.{read, Chunk, WriteResult, eof, fine, whole, new, read_all}
use locaccel.TeeReader.Copy.{passed_on, written-passed_on}
use locaccel.FileCache.Listing.{add_file, file, Dir, Found, get_files_and_timestamps}
use locaccel.FileCache.Prune.{FileCache, FileInfo, Eviction, queue, prune, pruned, start}
use locaccel.FileCache.Prune.Evicted.{IsQueue, Evicts, prune_quiet, prune-panics}
use locaccel.FileCache.Ingestion.{
  Answers, Ingestion, Call, rename, on_ingest, on_cleanup, close_dest, close_src,
}

abbrev dirs : List Dir
dirs =
    record {
      name = "ab";
      entries = some (
          file (record { name = "new"; mod_time = 30; size = 5 })
          ∷ file (record { name = "old"; mod_time = 10; size = 7 })
          ∷ []);
    }
    ∷ record { name = "_tmp"; entries = none }
    ∷ []

abbrev cache : FileCache
cache = record { root = "/c"; quota_low = pos 6; quota_high = pos 12 }

abbrev listed : Found
listed = record { total_size = 12; files = (30, "/c/ab/new" ∷ []) ∷ (10, "/c/ab/old" ∷ []) ∷ [] }

abbrev sizes : String → ℕ
sizes f = if f == "/c/ab/new" then 5 else 7

abbrev stat : String → Option FileInfo
stat f = some (
    if f == "/c/ab/new"
    then record { mod_time = 30; size = 5 }
    else record { mod_time = 10; size = 7 })

abbrev removes : String → Bool
removes f = true

prune_quiet_example :
    (r : Eviction) × (gone : List (ℕ × String)) × (kept : List (ℕ × String)) × (prune cache
        (some dirs)
        stat
        removes
      ≡ returns (pruned r))
    × IsQueue cache.root dirs 12 (gone ++ kept)
    × Evicts stat removes cache.quota_low sizes (start listed.total_size) r gone kept
unfolding get_files_and_timestamps queue add_file
prune_quiet_example =
    prune_quiet cache dirs stat removes listed refl sizes refl ((refl, refl), ((refl, refl), tt))

-- The newer file has gone when its turn comes.
abbrev vanished : String → Option FileInfo
vanished f = if f == "/c/ab/new" then none else stat f

abbrev small : FileCache
small = record { root = "/c"; quota_low = pos 3; quota_high = pos 12 }

prune-panics_example :
    (prune small (some dirs) vanished removes ≡ panics)
    × IsQueue small.root dirs 12 ((10, "/c/ab/old") ∷ (30, "/c/ab/new") ∷ [])
unfolding get_files_and_timestamps queue add_file ◌-ℤ◌
prune-panics_example =
    prune-panics small dirs vanished removes listed refl sizes ((10, "/c/ab/old") ∷ []) 30
      "/c/ab/new" [] refl refl ((refl, refl), tt) (refl, (refl, tt)) refl

abbrev reads : List (Chunk × WriteResult)
reads =
    (record { bytes = 1 ∷ 2 ∷ []; err = fine }, whole)
    ∷ (record { bytes = 3 ∷ []; err = eof }, whole)
    ∷ []

written-passed_on_example :
    ((read_all new reads).written ≡ passed_on reads)
    × ((read_all new reads).total_read ≡ length (passed_on reads))
unfolding read_all read
written-passed_on_example = written-passed_on reads refl

abbrev name_by_length : List ℕ → String
name_by_length bytes = if eqb (length bytes) 3 then "three" else "other"

abbrev ended : Answers
ended = record { probe = record { bytes = []; err = eof }; renames = true; closes_dest = true }

abbrev calls : List Call
calls = rename "three" ∷ close_dest ∷ on_ingest "three" ∷ close_src ∷ on_cleanup ∷ []

abbrev read_out : Ingestion
read_out = record { reader = read_all new reads; was_called = false }
