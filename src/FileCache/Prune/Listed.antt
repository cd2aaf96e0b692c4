-- ===== src/FileCache/Prune/Listed.antt =====
-- The eviction meets each file of the listing, and no other.
use locaccel.Prelude.{
  ℕ, ◌+◌, String, List, [], ◌∷◌, ◌++◌, Option, none, some, Bool, true, false, ◌==◌, eqb, eqb_iff,
  if◌then◌else◌, ◌≡◌, refl, ap, ◌∙◌, arith, All, Bool-cases, inl, inr,
}
use mathlib.Core.Path.{subst}
use locaccel.FileCache.Listing.{
  DirEntry, file, unreadable, Dir, tmp_dir_name, join_path, Timestamps, add_file, Found,
  scan_entries, scan_dirs, get_files_and_timestamps, then_scan, scan_dir,
}
use locaccel.FileCache.Prune.{insert, sort, files_at, tagged, in_order, keys, queue}

-- How many members pass the test.
abbrev pub count {ℓ} : {A : Type ℓ} → (A → Bool) → List A → ℕ
count P [] = 0
count P (x ∷ xs) = (if P x then 1 else 0) + count P xs

-- The files of the directories but that of the temporary ones, with their timestamps, and their sizes.
abbrev pub listed_in : String → List DirEntry → List (ℕ × String)
listed_in path [] = []
listed_in path (unreadable name ∷ entries) = listed_in path entries
listed_in path (file f ∷ entries) = (f.mod_time, join_path path f.name) ∷ listed_in path entries

abbrev pub sizes_in : List DirEntry → ℕ
sizes_in [] = 0
sizes_in (unreadable name ∷ entries) = sizes_in entries
sizes_in (file f ∷ entries) = f.size + sizes_in entries

abbrev pub entries_or_none : Option (List DirEntry) → List DirEntry
entries_or_none none = []
entries_or_none (some entries) = entries

abbrev pub entries_of : Dir → List DirEntry
entries_of dir = if dir.name == tmp_dir_name then [] else entries_or_none dir.entries

abbrev pub listed_files : String → List Dir → List (ℕ × String)
listed_files root [] = []
listed_files root (dir ∷ dirs) =
    listed_in (join_path root dir.name) (entries_of dir) ++ listed_files root dirs

abbrev pub listed_size : List Dir → ℕ
listed_size [] = 0
listed_size (dir ∷ dirs) = sizes_in (entries_of dir) + listed_size dirs

then_scan-some :
    (o : Option Found) (k : Found → Option Found) (found : Found)
    → then_scan o k ≡ some found
    → (mid : Found) × (o ≡ some mid) × (k mid ≡ some found)
then_scan-some none k found h = cc
then_scan-some (some mid) k found h = (mid, refl, h)

abbrev Fresh : ℕ → Timestamps → Type 0
Fresh t = All (λ (entry : ℕ × List String). eqb entry.0 t ≡ false)

abbrev Distinct : Timestamps → Type 0
Distinct [] = Unit
Distinct ((u, paths) ∷ m) = Fresh u m × Distinct m

abbrev flat : Timestamps → List (ℕ × String)
flat [] = []
flat ((u, paths) ∷ m) = tagged u paths ++ flat m

add_file-Fresh :
    (m : Timestamps) (t u : ℕ) (path : String)
    → eqb t u ≡ false
    → Fresh u m
    → Fresh u (add_file m t path)
unfolding add_file
add_file-Fresh [] t u path ne h = (ne, tt)
add_file-Fresh ((v, paths) ∷ m) t u path ne (h, hs) = elim (Bool-cases (eqb v t)) [
  | inl e ↦ rw e (h, hs)
  | inr e ↦ rw e (h, add_file-Fresh m t u path ne hs)
]

add_file-Distinct :
    (m : Timestamps) (t : ℕ) (path : String) → Distinct m → Distinct (add_file m t path)
unfolding add_file
add_file-Distinct [] t path h = (tt, tt)
add_file-Distinct ((v, paths) ∷ m) t path (h, hs) = elim (Bool-cases (eqb v t)) [
  | inl e ↦ rw e (h, hs)
  | inr e ↦ rw e (add_file-Fresh m t v path (ground (arith, e)) h, add_file-Distinct m t path hs)
]

in_order-Fresh :
    (u : ℕ) (paths : List String) (m n : Timestamps)
    → Fresh u n
    → in_order ((u, paths) ∷ m) (keys n) ≡ in_order m (keys n)
unfolding files_at
in_order-Fresh u paths m [] h = refl
in_order-Fresh u paths m ((v, others) ∷ n) (ne, h) =
    let other : eqb u v ≡ false = ground (arith, ne) in
    rw (other, in_order-Fresh u paths m n h) refl

in_order-keys : (m : Timestamps) → Distinct m → in_order m (keys m) ≡ flat m
unfolding files_at
in_order-keys [] h = refl
in_order-keys ((u, paths) ∷ m) (h, hs) =
    let same : eqb u u ≡ true = ground arith in
    rw (same, in_order-Fresh u paths m m h, in_order-keys m hs) refl

module _ (P : ℕ × String → Bool) where
  count-append : (xs ys : List (ℕ × String)) → count P (xs ++ ys) ≡ count P xs + count P ys
  count-append [] ys = omega arith
  count-append (x ∷ xs) ys = ground (arith, count-append xs ys)

  in_order-insert :
      (m : Timestamps) (t : ℕ) (ts : List ℕ)
      → count P (in_order m (insert t ts))
        ≡ count P (tagged t (files_at m t)) + count P (in_order m ts)
  unfolding insert
  in_order-insert m t [] = count-append (tagged t (files_at m t)) []
  in_order-insert m t (u ∷ ts) = ground (
    arith,
    count-append (tagged t (files_at m t)) (in_order m (u ∷ ts)),
    count-append (tagged u (files_at m u)) (in_order m (insert t ts)),
    count-append (tagged u (files_at m u)) (in_order m ts),
    in_order-insert m t ts,
  )

  in_order-sort :
      (m : Timestamps) (ts : List ℕ) → count P (in_order m (sort ts)) ≡ count P (in_order m ts)
  unfolding sort
  in_order-sort m [] = refl
  in_order-sort m (t ∷ ts) = ground (
    arith,
    in_order-insert m t (sort ts),
    in_order-sort m ts,
    count-append (tagged t (files_at m t)) (in_order m ts),
  )

  tagged-append :
      (t : ℕ) (paths : List String) (path : String)
      → count P (tagged t (paths ++ path ∷ []))
        ≡ count P ((t, path) ∷ []) + count P (tagged t paths)
  tagged-append t [] path = omega arith
  tagged-append t (p ∷ paths) path = ground (arith, tagged-append t paths path)

  count-add_file :
      (m : Timestamps) (t : ℕ) (path : String)
      → count P (flat (add_file m t path)) ≡ count P ((t, path) ∷ []) + count P (flat m)
  unfolding add_file
  count-add_file [] t path = omega arith
  count-add_file ((u, paths) ∷ m) t path = elim (Bool-cases (eqb u t)) [
    | inl e ↦
        rw (e, (eqb_iff u t).0 e)
          (ground (
            arith,
            count-append (tagged t (paths ++ path ∷ [])) (flat m),
            count-append (tagged t paths) (flat m),
            tagged-append t paths path,
          ))
    | inr e ↦ rw e (
        ground (
          arith,
          count-append (tagged u paths) (flat (add_file m t path)),
          count-append (tagged u paths) (flat m),
          count-add_file m t path,
        ))
  ]

  -- `found` is `acc` with these files and sizes.
  abbrev Adds : Found → Found → List (ℕ × String) → ℕ → Type 0
  Adds acc found files sizes =
      Distinct found.files
      × (count P (flat found.files) ≡ count P (flat acc.files) + count P files)
      × (found.total_size ≡ acc.total_size + sizes)

  scan_entries-Adds :
      (path : String) (entries : List DirEntry) (acc found : Found)
      → Distinct acc.files
      → scan_entries path entries acc ≡ some found
      → Adds acc found (listed_in path entries) (sizes_in entries)
  unfolding scan_entries
  scan_entries-Adds path [] acc found d h =
      let same : acc ≡ found = ground (arith, h) in
      subst (λ (g : Found). Adds acc g [] 0) same (d, omega arith, omega arith)
  scan_entries-Adds path (unreadable name ∷ entries) acc found d h = cc
  scan_entries-Adds path (file f ∷ entries) acc found d h =
      let name = join_path path f.name in
      let acc' : Found = record {
        total_size = acc.total_size + f.size;
        files = add_file acc.files f.mod_time name;
      } in
      let (d', counts, total) =
        scan_entries-Adds path entries acc' found (add_file-Distinct acc.files f.mod_time name d)
          h in
      (d', ground (arith, counts, count-add_file acc.files f.mod_time name), omega (arith, total))

  one_dir :
      (path : String) (skipped : Bool) (o : Option (List DirEntry)) (acc found : Found)
      → Distinct acc.files
      → (if skipped then some acc else elim o as (λ x. Option Found) [
        | none ↦ none
        | some entries ↦ scan_entries path entries acc
      ])
        ≡ some found
      → Adds acc found
          (listed_in path (if skipped then [] else entries_or_none o))
          (sizes_in (if skipped then [] else entries_or_none o))
  one_dir path true o acc found d h =
      let same : acc ≡ found = ground (arith, h) in
      subst (λ (g : Found). Adds acc g [] 0) same (d, omega arith, omega arith)
  one_dir path false none acc found d h = cc
  one_dir path false (some entries) acc found d h = scan_entries-Adds path entries acc found d h

  scan_dir-Adds :
      (root : String) (dir : Dir) (acc found : Found)
      → Distinct acc.files
      → scan_dir root dir acc ≡ some found
      → Adds acc found
          (listed_in (join_path root dir.name) (entries_of dir))
          (sizes_in (entries_of dir))
  scan_dir-Adds root dir acc found d h =
      one_dir (join_path root dir.name) (dir.name == tmp_dir_name) dir.entries acc found d h

  scan_dirs-Adds :
      (root : String) (dirs : List Dir) (acc found : Found)
      → Distinct acc.files
      → scan_dirs root dirs acc ≡ some found
      → Adds acc found (listed_files root dirs) (listed_size dirs)
  unfolding scan_dirs
  scan_dirs-Adds root [] acc found d h =
      let same : acc ≡ found = ground (arith, h) in
      subst (λ (g : Found). Adds acc g [] 0) same (d, omega arith, omega arith)
  scan_dirs-Adds root (dir ∷ dirs) acc found d h =
      let (mid, one, more) = then_scan-some (scan_dir root dir acc) _ found h in
      let (d', counts, total) = scan_dir-Adds root dir acc mid d one in
      let (d'', counts', total') = scan_dirs-Adds root dirs mid found d' more in
      (
        d'',
        ground (
          arith,
          counts,
          counts',
          count-append (listed_in (join_path root dir.name) (entries_of dir))
              (listed_files root dirs),
        ),
        omega (arith, total, total'),
      )

  -- As many files are met as were listed, of whatever kind, and their sizes add up to the total.
  pub queue-listed :
      (root : String) (dirs : List Dir) (found : Found)
      → get_files_and_timestamps root (some dirs) ≡ some found
      → (count P (queue found.files) ≡ count P (listed_files root dirs))
        × (found.total_size ≡ listed_size dirs)
  unfolding get_files_and_timestamps queue
  queue-listed root dirs found h =
      let (d, counts, total) =
        scan_dirs-Adds root dirs (record { total_size = 0; files = [] }) found tt h in
      (
        in_order-sort found.files (keys found.files)
            ∙ ap (count P) (in_order-keys found.files d)
            ∙ ground (arith, counts),
        omega (arith, total),
      )
