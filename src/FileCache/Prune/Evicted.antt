-- ===== src/FileCache/Prune/Evicted.antt =====
-- What the eviction removes, and when it panics.
use locaccel.Prelude.{
  ℕ, ◌+◌, String, List, [], ◌∷◌, ◌++◌, Option, none, some, Bool, true, false, map, length, ◌≡◌, ◌⊎◌,
  inl, inr, refl, sym, ap, arith, All, append-nil, append_assoc, Bool-cases, ◌∙◌, eqb,
}
use locaccel.Prelude.Int.{ℤ, pos, ◌-ℤ◌, leb_ℤ, ltb_ℤ, int_laws}
use locaccel.Prelude.Panic.{returns, panics}
use mathlib.Core.Path.{subst}
use locaccel.FileCache.Prune.Listed.{count, listed_files, listed_size, queue-listed}
use locaccel.FileCache.Prune.Order.{ByAge, queue-ByAge}
use locaccel.FileCache.Listing.{Dir, Found, get_files_and_timestamps}
use locaccel.FileCache.Prune.{
  FileInfo, Eviction, evict, queue, prune, FileCache, pruned, start, as_pruned,
}

eqb_refl : (n : ℕ) → eqb n n ≡ true
eqb_refl n = ground arith

module _ (stat : String → Option FileInfo) (remove : String → Bool) (quota_low : ℤ)
    (size : String → ℕ) where
  -- Nobody touches the files between the listing and their removal.
  abbrev pub IsQuiet : ℕ × String → Type 0
  IsQuiet (timestamp, filename) =
      (stat filename ≡ some (record { mod_time = timestamp; size = size filename }))
      × (remove filename ≡ true)

  abbrev pub path_of : ℕ × String → String
  path_of (timestamp, filename) = filename

  abbrev pub sum_sizes : List (ℕ × String) → ℕ
  sum_sizes [] = 0
  sum_sizes ((timestamp, filename) ∷ fs) = size filename + sum_sizes fs

  -- Before each of these files the cache is above the low quota.
  abbrev pub AboveQuota : ℤ → List (ℕ × String) → Type 0
  AboveQuota total [] = Unit
  AboveQuota total ((timestamp, filename) ∷ fs) =
      (leb_ℤ total quota_low ≡ false) × AboveQuota (total -ℤ pos (size filename)) fs

  -- The files `gone` were removed, and `kept` is left.
  pub record Evicts (s r : Eviction) (gone kept : List (ℕ × String)) : Type 0 where
    pub files : r.removed_files ≡ s.removed_files ++ map path_of gone
    pub count : r.removed ≡ s.removed + length gone
    pub total : r.total_size ≡ s.total_size -ℤ pos (sum_sizes gone)
    pub needed : AboveQuota s.total_size gone
    pub enough : (leb_ℤ r.total_size quota_low ≡ true) ⊎ (kept ≡ [])

  abbrev after : String → Eviction → Eviction
  after f s = record {
    total_size = s.total_size -ℤ pos (size f);
    removed = s.removed + 1;
    removed_files = s.removed_files ++ f ∷ [];
  }

  evict_stops :
      (g : ℕ × String) (fs : List (ℕ × String)) (s : Eviction)
      → leb_ℤ s.total_size quota_low ≡ true
      → evict stat remove quota_low (g ∷ fs) s ≡ returns s
  unfolding evict
  evict_stops g fs s h = ground arith

  evict_goes_on :
      (t : ℕ) (f : String) (fs : List (ℕ × String)) (s : Eviction)
      → leb_ℤ s.total_size quota_low ≡ false
      → IsQuiet (t, f)
      → evict stat remove quota_low ((t, f) ∷ fs) s ≡ evict stat remove quota_low fs (after f s)
  unfolding evict
  evict_goes_on t f fs s h (at, ok) = ground (arith, at, ok, h)

  sub_zero : (a : ℤ) → a ≡ a -ℤ pos 0
  sub_zero a = omega int_laws

  sub_sub : (a : ℤ) (m n : ℕ) → (a -ℤ pos m) -ℤ pos n ≡ a -ℤ pos (m + n)
  sub_sub a m n = omega int_laws

  nothing_gone :
      (s : Eviction) (kept : List (ℕ × String))
      → (leb_ℤ s.total_size quota_low ≡ true) ⊎ (kept ≡ [])
      → Evicts s s [] kept
  nothing_gone s kept h = record {
    files = sym (append-nil s.removed_files);
    count = omega arith;
    total = sub_zero s.total_size;
    needed = tt;
    enough = h;
  }

  one_more :
      (t : ℕ) (f : String) (s r : Eviction) (gone kept : List (ℕ × String))
      → leb_ℤ s.total_size quota_low ≡ false
      → Evicts (after f s) r gone kept
      → Evicts s r ((t, f) ∷ gone) kept
  one_more t f s r gone kept above e = record {
    files = e.files ∙ append_assoc s.removed_files (f ∷ []) (map path_of gone);
    count = omega (arith, e.count);
    total = e.total ∙ sub_sub s.total_size (size f) (sum_sizes gone);
    needed = (above, e.needed);
    enough = e.enough;
  }

  -- The files `gone` were removed, each while the cache was above the low quota, as it still is; then
  -- the next one is not there any more.
  evict_vanished :
      (gone : List (ℕ × String)) (t : ℕ) (f : String) (rest : List (ℕ × String)) (s : Eviction)
      → All IsQuiet gone
      → AboveQuota s.total_size (gone ++ (t, f) ∷ [])
      → stat f ≡ none
      → evict stat remove quota_low (gone ++ (t, f) ∷ rest) s ≡ panics
  unfolding evict
  evict_vanished [] t f rest s quiet (above, tt) missing = ground (arith, above, missing)
  evict_vanished ((u, g) ∷ gone) t f rest s (q, quiet) (above, more) missing =
      evict_goes_on u g (gone ++ (t, f) ∷ rest) s above q
      ∙ evict_vanished gone t f rest (after g s) quiet more missing

  pub evict_quiet :
      (fs : List (ℕ × String)) (s : Eviction)
      → All IsQuiet fs
      → (r : Eviction) × (gone : List (ℕ × String)) × (kept : List (ℕ × String)) × (evict stat
            remove quota_low fs s
          ≡ returns r)
        × (fs ≡ gone ++ kept)
        × Evicts s r gone kept
  evict_quiet [] s quiet = (s, [], [], unfold evict in refl, refl, nothing_gone s [] (inr refl))
  evict_quiet ((t, f) ∷ fs) s ((at, ok), quiet) = elim (Bool-cases (leb_ℤ s.total_size quota_low)) [
    | inl e ↦
        (s, [], (t, f) ∷ fs, evict_stops (t, f) fs s e, refl, nothing_gone s ((t, f) ∷ fs) (inl e))
    | inr e ↦
        let (r, gone, kept, run, split, ev) = evict_quiet fs (after f s) quiet in
        (
          r,
          (t, f) ∷ gone,
          kept,
          evict_goes_on t f fs s e (at, ok) ∙ run,
          ap (λ gs. (t, f) ∷ gs) split,
          one_more t f s r gone kept e ev,
        )
  ]

-- The queue has just the files that were listed, each as often, the least recently used first; and
-- the total is the sum of their sizes.
abbrev pub IsQueue : String → List Dir → ℕ → List (ℕ × String) → Type 0
IsQueue root dirs total_size files =
    ((P : ℕ × String → Bool) → count P files ≡ count P (listed_files root dirs))
    × ByAge files
    × (total_size ≡ listed_size dirs)

module _ (f : FileCache) (dirs : List Dir) (stat : String → Option FileInfo)
    (remove : String → Bool) (found : Found)
    (listed : get_files_and_timestamps f.root (some dirs) ≡ some found) where
  prune_runs :
      ltb_ℤ (pos found.total_size) f.quota_high ≡ false
      → prune f (some dirs) stat remove
        ≡ as_pruned (evict stat remove f.quota_low (queue found.files) (start found.total_size))
  unfolding prune
  prune_runs h = ground (arith, listed, h)

  queue-IsQueue : IsQueue f.root dirs found.total_size (queue found.files)
  queue-IsQueue = (
    λ P. (queue-listed P f.root dirs found listed).0,
    queue-ByAge found.files,
    (queue-listed (λ g. true) f.root dirs found listed).1,
  )

  -- From the high quota on, if nobody touches the listed files meanwhile, the eviction ends. It takes
  -- all files of the listing, the least recently used first, and removes `gone` of them, in that
  -- order, each while the cache is above the low quota; the total goes down from the sum of the listed
  -- sizes by theirs, and at the end it meets the low quota or no file is left.
  pub prune_quiet :
      (size : String → ℕ)
      → ltb_ℤ (pos found.total_size) f.quota_high ≡ false
      → All (IsQuiet stat remove f.quota_low size) (queue found.files)
      → (r : Eviction) × (gone : List (ℕ × String)) × (kept : List (ℕ × String)) × (prune f
            (some dirs)
            stat
            remove
          ≡ returns (pruned r))
        × IsQueue f.root dirs found.total_size (gone ++ kept)
        × Evicts stat remove f.quota_low size (start found.total_size) r gone kept
  prune_quiet size h quiet =
      let (r, gone, kept, run, split, ev) =
        evict_quiet stat remove f.quota_low size (queue found.files) (start found.total_size)
          quiet in
      (
        r,
        gone,
        kept,
        prune_runs h ∙ ap as_pruned run,
        subst (IsQueue f.root dirs found.total_size) split queue-IsQueue,
        ev,
      )

  -- From the high quota on, if a file has gone since the listing, as when an entry is deleted by hand
  -- meanwhile, nobody touches those that were used less recently, and the cache is above the low quota
  -- before each of them and before this one, then the eviction panics.
  pub prune-panics :
      (size : String → ℕ) (gone : List (ℕ × String)) (timestamp : ℕ) (filename : String)
      (rest : List (ℕ × String))
      → ltb_ℤ (pos found.total_size) f.quota_high ≡ false
      → queue found.files ≡ gone ++ (timestamp, filename) ∷ rest
      → All (IsQuiet stat remove f.quota_low size) gone
      → AboveQuota stat remove f.quota_low size
          (pos found.total_size)
          (gone ++ (timestamp, filename) ∷ [])
      → stat filename ≡ none
      → (prune f (some dirs) stat remove ≡ panics)
        × IsQueue f.root dirs found.total_size (gone ++ (timestamp, filename) ∷ rest)
  prune-panics size gone timestamp filename rest h split quiet above missing = (
    prune_runs h
        ∙ rw split (
            ap as_pruned (
              evict_vanished stat remove f.quota_low size gone timestamp filename rest
                (start found.total_size) quiet above missing)),
    subst (IsQueue f.root dirs found.total_size) split queue-IsQueue,
  )
