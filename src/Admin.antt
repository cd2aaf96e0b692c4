-- ===== src/Admin.antt =====
-- internal/handlers/admin/admin.go: the answers of the admin interface, of which the pages are
-- templates.
pub mod Deleted
use locaccel.Prelude.{ℕ, String, List, Option, none, some, Bool, true, false}
use locaccel.Database.{Badger, Codec, DbError, key_not_found, conflict, unexpected}
use locaccel.Client.{CachedResponses}
use locaccel.Cache.{Removed, RemoveError, of_database, of_file, remove_key}

-- `errors.Is(err, database.ErrKeyNotFound)`
unfoldable pub status_of_removal : Option RemoveError → ℕ
status_of_removal none = 204
status_of_removal (some (of_database key_not_found)) = 404
status_of_removal (some (of_database conflict)) = 500
status_of_removal (some (of_database unexpected)) = 500
status_of_removal (some of_file) = 500

-- DELETE /cache/{key}: the database, the files that were to be removed, and the status.
unfoldable pub delete_cache :
    (badger : Badger)
    → Codec CachedResponses badger.Bytes
    → badger.Db
    → String
    → (String → Removed)
    → badger.Db × List String × ℕ
unfolding status_of_removal
delete_cache badger codec db key remove =
    let (db', tried, err) = remove_key badger codec db key remove in
    (db', tried, status_of_removal err)
