-- ===== src/Tests/Cache.antt =====
-- The cache as a whole, with a database that keeps its history.
use locaccel.Prelude.{
  ◌⊎◌, String, [], ◌∷◌, Option, none, some, true, ◌≡◌, refl, ◌==◌, if◌then◌else◌,
}
use locaccel.Database.{get, save, iterate, send}
use locaccel.Client.{CachedResponses}
use locaccel.FileCache.Listing.{Statistics}
use locaccel.Cache.{
  Stat, exists, not_exist, Removed, gone, was_absent, fresh_entry, valid_values,
  prune_database_entry,
}
use locaccel.Admin.{delete_cache}
use locaccel.Admin.Deleted.{AreGone, IsUnknown, HasFailed, delete_cache_lem}
use locaccel.Cache.Cleaned.{IsCleaned, with_file, prune_database_entry-IsCleaned}
use locaccel.Cache.Usage.{
  usage_at, put_usage, add_sizes, count_entry, CacheStatistics, get_cache_statistics,
}
use locaccel.Cache.Usage.Totals.{responses_of, total_size, get_cache_statistics-totals}
use locaccel.Tests.Store.{Shelf, shelf, shelf_laws, same, same_laws}
use locaccel.Tests.Fixtures.{long, gone as evicted, holding}

abbrev Db : Type 0
Db = Shelf CachedResponses

abbrev filled : Db
filled = holding (long ∷ evicted ∷ [])

abbrev emptied : Db
emptied = ("GET+/p", none) ∷ filled

abbrev removes : String → Removed
removes hash = if hash == "f1" then gone else was_absent

delete_cache_lem_example :
    AreGone
      (shelf CachedResponses)
      (same CachedResponses)
      (shelf_laws CachedResponses)
      removes
      filled
      "GET+/p"
      (delete_cache (shelf CachedResponses) (same CachedResponses) filled "GET+/p" removes)
    ⊎ IsUnknown
        (shelf CachedResponses)
        (same CachedResponses)
        (shelf_laws CachedResponses)
        removes
        filled
        "GET+/p"
        (delete_cache (shelf CachedResponses) (same CachedResponses) filled "GET+/p" removes)
    ⊎ HasFailed
        (shelf CachedResponses)
        (same CachedResponses)
        (shelf_laws CachedResponses)
        removes
        filled
        "GET+/p"
        (delete_cache (shelf CachedResponses) (same CachedResponses) filled "GET+/p" removes)
delete_cache_lem_example =
    delete_cache_lem (shelf CachedResponses) (same CachedResponses) (shelf_laws CachedResponses)
      removes filled "GET+/p"

abbrev stat : String → Stat
stat hash = if hash == "f1" then exists 5 else not_exist

prune_database_entry-IsCleaned_example :
    IsCleaned
      (shelf CachedResponses)
      (same CachedResponses)
      (shelf_laws CachedResponses)
      (same_laws CachedResponses)
      stat
      (("GET+/p", some (long ∷ [])) ∷ filled)
      "GET+/p"
      fresh_entry
      (long ∷ evicted ∷ [])
      (with_file stat (long ∷ evicted ∷ []))
unfolding prune_database_entry valid_values get save
prune_database_entry-IsCleaned_example =
    prune_database_entry-IsCleaned (shelf CachedResponses) (same CachedResponses)
      (shelf_laws CachedResponses) (same_laws CachedResponses) stat filled
      (("GET+/p", some (long ∷ [])) ∷ filled) "GET+/p"
      (record { value = long ∷ evicted ∷ []; version = 1 }) fresh_entry refl refl

abbrev two : Db
two = ("GET+/q", some (long ∷ [])) ∷ filled

abbrev hostname : String → Option String
hostname key = some "h"

abbrev files : Statistics
files = record { count = 1; total_size = 5; ok = true }

abbrev reported : CacheStatistics
reported = record {
  database_size = 9;
  database_entries = 2;
  file_cache_size = 5;
  file_cache_entries = 1;
  usage_per_host_name = ("h", record { entries = 3; size = 10 }) ∷ [];
}

get_cache_statistics-totals_example : usage_at reported.usage_per_host_name "h" ≡ record {
  entries = 3;
  size = total_size stat (
      responses_of hostname "h"
        (same CachedResponses)
        (("GET+/q", long ∷ [], 2) ∷ ("GET+/p", long ∷ evicted ∷ [], 1) ∷ []));
}
unfolding get_cache_statistics iterate send count_entry usage_at put_usage add_sizes
get_cache_statistics-totals_example =
    get_cache_statistics-totals hostname (shelf CachedResponses) (same CachedResponses) (2, 9) files
      stat two reported (("GET+/q", long ∷ [], 2) ∷ ("GET+/p", long ∷ evicted ∷ [], 1) ∷ []) "h"
      refl refl
