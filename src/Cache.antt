-- ===== src/Cache.antt =====
-- internal/httpclient/cache.go: the database of responses and the file cache as one.
pub mod Removal
pub mod Cleaned
pub mod Usage
use locaccel.Prelude.{
  ℕ, ◌+◌, String, List, [], ◌∷◌, ◌++◌, Option, none, some, Bool, true, false, not, eqb, any, length,
  ◌==◌, if◌then◌else◌,
}
use locaccel.Prelude.Panic.{Run, returns, panics}
use locaccel.Prelude.Text.{cut}
use locaccel.Database.{Badger, Codec, DbError, Entry, Lookup, get, save, delete, iterate}
use locaccel.Client.{CachedResponse, CachedResponses}
use locaccel.FileCache.Listing.{Statistics, Dir, get_all_hashes}
use locaccel.FileCache.Prune.{Pruned, pruned, not_required, listing_failed}

-- What `os.Stat` says of a file: its size, `fs.ErrNotExist`, or another error.
pub data Stat : Type 0 where
  exists : ℕ → Stat
  not_exist stat_failed : Stat

-- What `os.Remove` says: nothing, `fs.ErrNotExist`, or another error.
pub data Removed : Type 0 where
  gone was_absent stays : Removed

pub data RemoveError : Type 0 where
  of_database : DbError → RemoveError
  of_file : RemoveError

-- `new(database.Entry[CachedResponses])`
abbrev pub fresh_entry : Entry CachedResponses
fresh_entry = record { value = []; version = 0 }

abbrev pub noted : Removed → Option RemoveError → Option RemoveError
noted gone err = err
noted was_absent err = err
noted stays err = some of_file

-- The loop of `Remove`, with the files that were to be removed: an error of one is kept, and the
-- others are removed all the same.
unfoldable pub remove_files :
    (String → Removed)
    → CachedResponses
    → List String × Option RemoveError
    → List String × Option RemoveError
remove_files remove [] (tried, err) = (tried, err)
remove_files remove (resp ∷ value) (tried, err) =
    remove_files remove value
      (tried ++ resp.content_hash ∷ [], noted (remove resp.content_hash) err)

-- The loop of `pruneDatabaseEntry`: the responses whose file is there, or none for an error of `Stat`.
unfoldable pub valid_values : (String → Stat) → CachedResponses → Option CachedResponses
valid_values stat [] = some []
valid_values stat (resp ∷ value) =
    let rest = valid_values stat value in
    elim (stat resp.content_hash) [
      | exists size ↦ elim rest [ none ↦ none | some valid ↦ some (resp ∷ valid) ]
      | not_exist ↦ rest
      | stat_failed ↦ none
    ]

-- `hasMissing`: the values of the map `knownHashes` are not read.
abbrev pub has_missing : List String → CachedResponses → Bool
has_missing known_hashes value =
    any (λ resp. not (any (λ hash. hash == resp.content_hash) known_hashes)) value

-- An operation of the database, as the callback of `Iterate` returns it.
abbrev pub as_callback : {Db : Type 0} → Db × Option DbError → Db × Bool
as_callback (db, none) = (db, true)
as_callback (db, some err) = (db, false)

module _ (badger : Badger) (codec : Codec CachedResponses badger.Bytes) where
  abbrev pub Removal : Type 0
  Removal = badger.Db × List String × Option RemoveError

  -- The files are removed once the key is.
  abbrev pub removed :
      (String → Removed) → Entry CachedResponses → badger.Db × Option DbError → Removal
  removed remove entry (db, some err) = (db, [], some (of_database err))
  removed remove entry (db, none) =
      let (tried, err) = remove_files remove entry.value ([], none) in (db, tried, err)

  abbrev pub found_entry :
      badger.Db → String → (String → Removed) → Entry CachedResponses × Option DbError → Removal
  found_entry db key remove (entry, some err) = (db, [], some (of_database err))
  found_entry db key remove (entry, none) = removed remove entry (delete badger codec db key entry)

  unfoldable pub remove_key : badger.Db → String → (String → Removed) → Removal
  unfolding remove_files
  remove_key db key remove = found_entry db key remove (get badger codec db key fresh_entry)

  abbrev pub write_valid :
      String → Entry CachedResponses → badger.Db → Option CachedResponses → badger.Db × Bool
  write_valid key value db none = (db, false)
  write_valid key value db (some valid) =
      if eqb (length valid) (length value.value)
      then (db, true)
      else if eqb (length valid) 0
      then as_callback (delete badger codec db key value)
      else as_callback (save badger codec db key (record value { value = valid }))

  unfoldable pub prune_database_entry :
      (String → Stat) → String → Entry CachedResponses → badger.Db → badger.Db × Bool
  unfolding valid_values
  prune_database_entry stat key value db = write_valid key value db (valid_values stat value.value)

  -- the callback of `removeUnusedDatabaseEntries`
  unfoldable pub remove_unused :
      (String → Stat) → List String → String → Entry CachedResponses → badger.Db → badger.Db × Bool
  unfolding prune_database_entry
  remove_unused stat known_hashes key value db =
      if has_missing known_hashes value.value
      then prune_database_entry stat key value db
      else (db, true)

  -- The stream reads the database as it is at its begin, and the callback writes to it.
  unfoldable pub remove_unused_database_entries :
      (String → Stat) → List String → badger.Db → badger.Db × Bool
  unfolding remove_unused
  remove_unused_database_entries stat known_hashes db =
      iterate badger codec [] (remove_unused stat known_hashes) db db

  abbrev hashes_or_none : Option (List String) → List String
  hashes_or_none none = []
  hashes_or_none (some hashes) = hashes

  -- `CleanupOldEntries` behind the eviction; `dirs` is the listing after it. Errors are logged.
  unfoldable pub cleanup_old_entries :
      Run Pruned → Option (List Dir) → (String → Stat) → badger.Db → Run badger.Db
  unfolding remove_unused_database_entries
  cleanup_old_entries panics dirs stat db = panics
  cleanup_old_entries (returns listing_failed) dirs stat db = returns db
  cleanup_old_entries (returns not_required) dirs stat db = returns db
  cleanup_old_entries (returns (pruned eviction)) dirs stat db =
      returns (remove_unused_database_entries stat (hashes_or_none (get_all_hashes dirs)) db).0
