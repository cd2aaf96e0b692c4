-- ===== src/FileCache/Prune.antt =====
-- `FileCache.Prune`: when the files reach the high quota, the least recently used are removed until
-- the low quota is met.
pub mod Order
pub mod Listed
pub mod Evicted
use locaccel.Prelude.{
  ℕ, ◌+◌, String, List, [], ◌∷◌, ◌++◌, Option, none, some, Bool, true, false, map, leb, eqb, not,
  if◌then◌else◌,
}
use locaccel.Prelude.Int.{ℤ, pos, ◌-ℤ◌, ltb_ℤ, leb_ℤ}
use locaccel.Prelude.Panic.{Run, returns, panics}
use locaccel.FileCache.Listing.{Dir, Found, Timestamps, get_files_and_timestamps}

-- `slices.Sort`
unfoldable pub insert : ℕ → List ℕ → List ℕ
insert t [] = t ∷ []
insert t (u ∷ us) = let rest = insert t us in if leb t u then t ∷ u ∷ us else u ∷ rest

unfoldable pub sort : List ℕ → List ℕ
unfolding insert
sort [] = []
sort (t ∷ ts) = insert t (sort ts)

-- `files[timestamp]`
unfoldable pub files_at : Timestamps → ℕ → List String
files_at [] t = []
files_at ((u, paths) ∷ m) t = if eqb u t then paths else files_at m t

abbrev pub tagged : ℕ → List String → List (ℕ × String)
tagged t [] = []
tagged t (path ∷ paths) = (t, path) ∷ tagged t paths

abbrev pub in_order : Timestamps → List ℕ → List (ℕ × String)
in_order files [] = []
in_order files (t ∷ ts) = tagged t (files_at files t) ++ in_order files ts

abbrev pub keys : Timestamps → List ℕ
keys m = map (λ (entry : ℕ × List String). entry.0) m

-- The order in which the two loops meet the files.
unfoldable pub queue : Timestamps → List (ℕ × String)
unfolding sort files_at
queue files = in_order files (sort (keys files))

-- What `os.Stat` shows of a file at the time of its removal.
pub record FileInfo : Type 0 where
  pub mod_time : ℕ
  pub size : ℕ

-- The variables of the loops, and the files that were removed, in order.
pub record Eviction : Type 0 where
  pub total_size : ℤ
  pub removed : ℕ
  pub removed_files : List String

-- The file system during the eviction: none is an error of `os.Stat`, and false one of `os.Remove`.
module _ (stat : String → Option FileInfo) (remove : String → Bool) (quota_low : ℤ) where
  abbrev removal : ℕ → String → FileInfo → Eviction → Eviction
  removal timestamp filename info s =
      if not (eqb info.mod_time timestamp)
      then s
      else if remove filename
      then record {
        total_size = s.total_size -ℤ pos info.size;
        removed = s.removed + 1;
        removed_files = s.removed_files ++ filename ∷ [];
      }
      else s

  -- An error of `os.Stat` is logged, and then the missing result is used.
  unfoldable pub evict : List (ℕ × String) → Eviction → Run Eviction
  evict [] s = returns s
  evict ((timestamp, filename) ∷ rest) s = elim (leb_ℤ s.total_size quota_low) [
    | true ↦ returns s
    | false ↦ elim (stat filename) [
      | none ↦ panics
      | some info ↦ evict rest (removal timestamp filename info s)
    ]
  ]

pub record FileCache : Type 0 where
  pub root : String
  pub quota_low : ℤ
  pub quota_high : ℤ

-- The error of the listing, `ErrGCleanupNotRequired`, or what was removed.
pub data Pruned : Type 0 where
  listing_failed not_required : Pruned
  pruned : Eviction → Pruned

abbrev pub as_pruned : Run Eviction → Run Pruned
as_pruned panics = panics
as_pruned (returns s) = returns (pruned s)

abbrev pub start : ℕ → Eviction
start total_size = record { total_size = pos total_size; removed = 0; removed_files = [] }

unfoldable pub prune :
    FileCache → Option (List Dir) → (String → Option FileInfo) → (String → Bool) → Run Pruned
unfolding evict
prune f dirs stat remove = elim (get_files_and_timestamps f.root dirs) [
  | none ↦ returns listing_failed
  | some found ↦
      if ltb_ℤ (pos found.total_size) f.quota_high
      then returns not_required
      else as_pruned (evict stat remove f.quota_low (queue found.files) (start found.total_size))
]
