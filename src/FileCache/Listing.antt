-- ===== src/FileCache/Listing.antt =====
-- The walks over the directories of the cache.
use locaccel.Prelude.{
  ℕ, ◌+◌, String, List, [], ◌∷◌, ◌++◌, Option, none, some, Bool, true, false, length, ◌==◌, eqb,
  if◌then◌else◌,
}
use locaccel.Prelude.Text.{◌<+>◌}

-- What a directory entry and its `Info` show of a file: its name, its modification time in seconds,
-- and its size. Sizes are not negative, and their sum is taken to fit an int64.
pub record File : Type 0 where
  pub name : String
  pub mod_time : ℕ
  pub size : ℕ

-- A directory under the root: its listing is none where `os.ReadDir` fails, and an entry is the name
-- alone where `Info` fails.
pub data DirEntry : Type 0 where
  file : File → DirEntry
  unreadable : String → DirEntry

pub record Dir : Type 0 where
  pub name : String
  pub entries : Option (List DirEntry)

abbrev pub name_of : DirEntry → String
name_of (file f) = f.name
name_of (unreadable name) = name

abbrev pub tmp_dir_name : String
tmp_dir_name = "_tmp"

-- `path.Join` of clean parts
abbrev pub join_path : String → String → String
join_path a b = a <+> "/" <+> b

-- The map from a timestamp to the files that have it, in the order in which they were met.
abbrev pub Timestamps : Type 0
Timestamps = List (ℕ × List String)

unfoldable pub add_file : Timestamps → ℕ → String → Timestamps
add_file [] t path = (t, path ∷ []) ∷ []
add_file ((u, paths) ∷ m) t path =
    let rest = add_file m t path in
    if eqb u t then (u, paths ++ path ∷ []) ∷ m else (u, paths) ∷ rest

pub record Found : Type 0 where
  pub total_size : ℕ
  pub files : Timestamps

-- the inner loop of `getFilesAndTimestamps`
unfoldable pub scan_entries : String → List DirEntry → Found → Option Found
scan_entries full_path [] acc = some acc
scan_entries full_path (unreadable name ∷ entries) acc = none
scan_entries full_path (file f ∷ entries) acc = scan_entries full_path entries (record {
  total_size = acc.total_size + f.size;
  files = add_file acc.files f.mod_time (join_path full_path f.name);
})

abbrev pub then_scan : Option Found → (Found → Option Found) → Option Found
then_scan none k = none
then_scan (some acc) k = k acc

abbrev pub scan_dir : String → Dir → Found → Option Found
scan_dir root dir acc = if dir.name == tmp_dir_name then some acc else elim dir.entries [
  | none ↦ none
  | some entries ↦ scan_entries (join_path root dir.name) entries acc
]

unfoldable pub scan_dirs : String → List Dir → Found → Option Found
unfolding scan_entries
scan_dirs root [] acc = some acc
scan_dirs root (dir ∷ dirs) acc =
    then_scan (scan_dir root dir acc) (λ acc'. scan_dirs root dirs acc')

-- The root's listing is none where reading it fails.
unfoldable pub get_files_and_timestamps : String → Option (List Dir) → Option Found
unfolding scan_dirs
get_files_and_timestamps root none = none
get_files_and_timestamps root (some dirs) =
    scan_dirs root dirs (record { total_size = 0; files = [] })

abbrev hashes_in : String → List DirEntry → List String
hashes_in dir [] = []
hashes_in dir (e ∷ entries) = (dir <+> name_of e) ∷ hashes_in dir entries

unfoldable pub hashes_of_dirs : List Dir → List String → Option (List String)
hashes_of_dirs [] acc = some acc
hashes_of_dirs (dir ∷ dirs) acc =
    let skip = hashes_of_dirs dirs acc in
    let more = λ (es : List DirEntry). hashes_of_dirs dirs (acc ++ hashes_in dir.name es) in
    if dir.name == tmp_dir_name
    then skip
    else elim dir.entries [ none ↦ none | some entries ↦ more entries ]

unfoldable pub get_all_hashes : Option (List Dir) → Option (List String)
unfolding hashes_of_dirs
get_all_hashes none = none
get_all_hashes (some dirs) = hashes_of_dirs dirs []

-- The results of `GetStatistics`; what was counted before an error is returned with it.
pub record Statistics : Type 0 where
  pub count : ℕ
  pub total_size : ℕ
  pub ok : Bool

abbrev sizes : List DirEntry → Statistics → Statistics
sizes [] s = s
sizes (unreadable name ∷ entries) s = record s { ok = false }
sizes (file f ∷ entries) s = sizes entries (record s { total_size = s.total_size + f.size })

abbrev dir_statistics : Option (List DirEntry) → Statistics → Statistics
dir_statistics none s = record s { ok = false }
dir_statistics (some entries) s = sizes entries (record s { count = s.count + length entries })

unfoldable pub statistics_of_dirs : List Dir → Statistics → Statistics
statistics_of_dirs [] s = s
statistics_of_dirs (dir ∷ dirs) s =
    let next = if dir.name == tmp_dir_name then s else dir_statistics dir.entries s in
    let rest = statistics_of_dirs dirs next in if next.ok then rest else next

unfoldable pub get_statistics : Option (List Dir) → Statistics
unfolding statistics_of_dirs
get_statistics none = record { count = 0; total_size = 0; ok = false }
get_statistics (some dirs) =
    statistics_of_dirs dirs (record { count = 0; total_size = 0; ok = true })
