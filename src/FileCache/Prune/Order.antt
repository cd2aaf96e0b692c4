-- ===== src/FileCache/Prune/Order.antt =====
-- The files are met in the order of their timestamps.
use locaccel.Prelude.{ℕ, ◌≤◌, String, List, [], ◌∷◌, ◌++◌, arith, All, All-append}
use locaccel.FileCache.Listing.{Timestamps}
use locaccel.FileCache.Prune.{insert, sort, files_at, tagged, in_order, keys, queue}

abbrev pub IsSorted : List ℕ → Type 0
IsSorted [] = Unit
IsSorted (t ∷ ts) = All (λ u. t ≤ u) ts × IsSorted ts

weaken : (t u : ℕ) (ts : List ℕ) → t ≤ u → All (λ v. u ≤ v) ts → All (λ v. t ≤ v) ts
weaken t u [] h all = tt
weaken t u (v ∷ ts) h (le, all) = (omega arith, weaken t u ts h all)

insert-All : (t u : ℕ) (ts : List ℕ) → t ≤ u → All (λ v. t ≤ v) ts → All (λ v. t ≤ v) (insert u ts)
unfolding insert
insert-All t u [] h all = (h, tt)
insert-All t u (v ∷ ts) h (le, all) = ground (arith, insert-All t u ts h all)

insert-IsSorted : (t : ℕ) (ts : List ℕ) → IsSorted ts → IsSorted (insert t ts)
unfolding insert
insert-IsSorted t [] s = (tt, tt)
insert-IsSorted t (u ∷ ts) (le, s) =
    ground (arith, insert-IsSorted t ts s, insert-All u t ts, weaken t u ts)

sort-IsSorted : (ts : List ℕ) → IsSorted (sort ts)
unfolding sort
sort-IsSorted [] = tt
sort-IsSorted (t ∷ ts) = insert-IsSorted t (sort ts) (sort-IsSorted ts)

-- Files, each no older than those before it.
abbrev pub ByAge : List (ℕ × String) → Type 0
ByAge [] = Unit
ByAge (f ∷ fs) = All (λ (g : ℕ × String). f.0 ≤ g.0) fs × ByAge fs

tagged-All :
    (t u : ℕ) (paths : List String) → t ≤ u → All (λ (g : ℕ × String). t ≤ g.0) (tagged u paths)
tagged-All t u [] h = tt
tagged-All t u (p ∷ paths) h = (h, tagged-All t u paths h)

in_order-All :
    (files : Timestamps) (t : ℕ) (ts : List ℕ)
    → All (λ v. t ≤ v) ts
    → All (λ (g : ℕ × String). t ≤ g.0) (in_order files ts)
in_order-All files t [] all = tt
in_order-All files t (u ∷ ts) (le, all) =
    All-append (λ (g : ℕ × String). t ≤ g.0) (tagged u (files_at files u)) (in_order files ts)
      (tagged-All t u (files_at files u) le) (in_order-All files t ts all)

tagged-ByAge :
    (t : ℕ) (paths : List String) (fs : List (ℕ × String))
    → All (λ (g : ℕ × String). t ≤ g.0) fs
    → ByAge fs
    → ByAge (tagged t paths ++ fs)
tagged-ByAge t [] fs all s = s
tagged-ByAge t (p ∷ paths) fs all s = (
  All-append (λ (g : ℕ × String). t ≤ g.0) (tagged t paths) fs (tagged-All t t paths (omega arith))
      all,
  tagged-ByAge t paths fs all s,
)

in_order-ByAge : (files : Timestamps) (ts : List ℕ) → IsSorted ts → ByAge (in_order files ts)
in_order-ByAge files [] s = tt
in_order-ByAge files (t ∷ ts) (all, s) =
    tagged-ByAge t (files_at files t) (in_order files ts) (in_order-All files t ts all)
      (in_order-ByAge files ts s)

-- The eviction meets the files from the least recently used on.
pub queue-ByAge : (files : Timestamps) → ByAge (queue files)
unfolding queue
queue-ByAge files = in_order-ByAge files (sort (keys files)) (sort-IsSorted (keys files))
