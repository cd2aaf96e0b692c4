-- ===== src/Admin/Deleted.antt =====
-- What the statuses of a deletion mean.
use locaccel.Prelude.{
  String, List, [], ◌∷◌, Option, none, some, ℕ, All, ◌≡◌, ◌≢◌, ◌⊎◌, inl, inr, refl, ap, arith,
  Option-cases, eqb, not, Bool-cases,
}
use locaccel.Database.{
  Badger, Codec, DbError, Entry, key_not_found, conflict, unexpected, Lookup, found, missing,
  failed, get, delete, checked_delete,
}
use locaccel.Database.Laws.{BadgerLaws}
use locaccel.Client.{CachedResponses}
use locaccel.Cache.{
  Removed, gone, was_absent, stays, noted, RemoveError, of_database, of_file, fresh_entry,
  remove_key, removed, remove_files,
}
use locaccel.Cache.Removal.{IsGone, hashes, remove_key-IsGone}
use locaccel.Admin.{status_of_removal, delete_cache}

module _ (badger : Badger) (codec : Codec CachedResponses badger.Bytes) (laws : BadgerLaws badger)
    (remove : String → Removed) where
  -- 204: there was an entry, and it and its files are gone.
  abbrev pub AreGone : badger.Db → String → badger.Db × List String × ℕ → Type 0
  AreGone db key (db', tried, status) =
      (status ≡ 204)
      × ((entry : Entry CachedResponses) × (get badger codec db key fresh_entry ≡ (entry, none))
          × (badger.txn_get db' key ≡ missing)
          × (tried ≡ hashes entry.value)
          × All (IsGone remove) entry.value)

  abbrev pub IsUnknown : badger.Db → String → badger.Db × List String × ℕ → Type 0
  IsUnknown db key (db', tried, status) =
      (status ≡ 404) × (badger.txn_get db key ≡ missing) × (db' ≡ db) × (tried ≡ [])

  abbrev pub HasFailed : badger.Db → String → badger.Db × List String × ℕ → Type 0
  HasFailed db key (db', tried, status) = (status ≡ 500) × (badger.txn_get db key ≢ missing)

  delete-error :
      (db : badger.Db) (key : String) (version : ℕ) (l : Lookup badger.Bytes)
      → (checked_delete badger codec db key version l).1 ≢ some key_not_found
  delete-error db key version failed e = cc
  delete-error db key version missing e = cc
  delete-error db key version (found old current) e =
      elim (Bool-cases (not (eqb current version))) [
        | inl c ↦ absurd (ground (arith, c, e))
        | inr c ↦ elim (Option-cases (badger.txn_delete db key)) [
          | inl d ↦ absurd (ground (arith, c, d, e))
          | inr (db', d) ↦ absurd (ground (arith, c, d, e))
        ]
      ]

  remove_key_missing :
      (db : badger.Db) (key : String)
      → badger.txn_get db key ≡ missing
      → remove_key badger codec db key remove ≡ (db, [], some (of_database key_not_found))
  unfolding remove_key get
  remove_key_missing db key e = rw e refl

  noted_error :
      (r : Removed) (err : Option RemoveError)
      → err ≢ some (of_database key_not_found)
      → noted r err ≢ some (of_database key_not_found)
  noted_error gone err h e = h e
  noted_error was_absent err h e = h e
  noted_error stays err h e = cc

  files_error :
      (value : CachedResponses) (tried : List String) (err : Option RemoveError)
      → err ≢ some (of_database key_not_found)
      → (remove_files remove value (tried, err)).1 ≢ some (of_database key_not_found)
  unfolding remove_files
  files_error [] tried err h = h
  files_error (resp ∷ value) tried err h =
      files_error value _ (noted (remove resp.content_hash) err)
        (noted_error (remove resp.content_hash) err h)

  removed-error :
      (entry : Entry CachedResponses) (d : badger.Db × Option DbError)
      → d.1 ≢ some key_not_found
      → (removed badger codec remove entry d).2 ≢ some (of_database key_not_found)
  removed-error entry (db, some err) h e = h (ground (arith, e))
  removed-error entry (db, none) h e = files_error entry.value [] none (λ q. cc) e

  found-error :
      (db : badger.Db) (key : String) (l : Lookup badger.Bytes)
      → badger.txn_get db key ≡ l
      → l ≢ missing
      → (remove_key badger codec db key remove).2 ≢ some (of_database key_not_found)
  unfolding remove_key get delete
  found-error db key failed e ne q = absurd (ground (arith, e, q))
  found-error db key missing e ne q = ne refl
  found-error db key (found bytes version) e ne q = elim (Bool-cases (codec.unmarshal bytes []).1) [
    | inr bad ↦ absurd (ground (arith, e, bad, q))
    | inl ok ↦
        let entry : Entry CachedResponses = record {
          value = (codec.unmarshal bytes []).0;
          version = version;
        } in
        let q' : (removed badger codec remove entry (delete badger codec db key entry)).2
            ≡ some (of_database key_not_found) =
          ground (arith, e, ok, q) in
        removed-error entry (delete badger codec db key entry)
          (delete-error db key version (badger.txn_get db key)) q'
  ]

  missing-cases : (l : Lookup badger.Bytes) → (l ≡ missing) ⊎ (l ≢ missing)
  missing-cases missing = inl refl
  missing-cases failed = inr (λ e. cc)
  missing-cases (found bytes version) = inr (λ e. cc)

  answered :
      (db : badger.Db) (key : String) (db' : badger.Db) (tried : List String)
      (err : Option RemoveError)
      → remove_key badger codec db key remove ≡ (db', tried, err)
      → badger.txn_get db key ≢ missing
      → AreGone db key (db', tried, status_of_removal err)
        ⊎ HasFailed db key (db', tried, status_of_removal err)
  unfolding status_of_removal
  answered db key db' tried none e ne =
      inl (refl, remove_key-IsGone badger codec laws remove db db' key tried e)
  answered db key db' tried (some (of_database key_not_found)) e ne =
      absurd (found-error db key _ refl ne (ap (λ r. r.2) e))
  answered db key db' tried (some (of_database conflict)) e ne = inr (refl, ne)
  answered db key db' tried (some (of_database unexpected)) e ne = inr (refl, ne)
  answered db key db' tried (some of_file) e ne = inr (refl, ne)

  -- A deletion is answered with 204 only if the key had an entry, is missing afterwards, and the file
  -- of every response of the entry was tried, in order, and is gone; with 404 if the key is missing,
  -- when the database is left as it is and no file is tried; and with 500 otherwise, when the key was
  -- not missing.
  pub delete_cache_lem :
      (db : badger.Db) (key : String)
      → AreGone db key (delete_cache badger codec db key remove)
        ⊎ IsUnknown db key (delete_cache badger codec db key remove)
        ⊎ HasFailed db key (delete_cache badger codec db key remove)
  unfolding delete_cache status_of_removal
  delete_cache_lem db key = elim (missing-cases (badger.txn_get db key)) [
    | inl absent ↦
        let e = remove_key_missing db key absent in
        inr (inl (ap (λ r. status_of_removal r.2) e, absent, ap (λ r. r.0) e, ap (λ r. r.1) e))
    | inr there ↦ elim (answered db key _ _ (remove_key badger codec db key remove).2 refl there) [
      | inl all ↦ inl all
      | inr error ↦ inr (inr error)
    ]
  ]
