-- ===== src/Cache/Removal.antt =====
-- What `Cache.Remove` removes.
use locaccel.Prelude.{
  String, List, [], ◌∷◌, ◌++◌, Option, none, some, map, All, ◌≡◌, ◌⊎◌, inl, inr, refl, sym, ap, ◌∙◌,
  arith, append-nil, append_assoc, Option-cases,
}
use locaccel.Database.{Badger, Codec, DbError, Entry, missing, get, delete}
use locaccel.Database.Laws.{BadgerLaws}
use locaccel.Database.Deleted.{delete-missing}
use locaccel.Client.{CachedResponse, CachedResponses}
use locaccel.Cache.{
  Removed, gone, was_absent, stays, RemoveError, fresh_entry, remove_files, noted, remove_key,
  removed,
}

abbrev pub hashes : CachedResponses → List String
hashes value = map (λ (resp : CachedResponse). resp.content_hash) value

noted-none :
    (r : Removed) (err : Option RemoveError)
    → noted r err ≡ none
    → (err ≡ none) × ((r ≡ gone) ⊎ (r ≡ was_absent))
noted-none gone err h = (h, inl refl)
noted-none was_absent err h = (h, inr refl)
noted-none stays err h = absurd (ground (arith, h))

module _ (remove : String → Removed) where
  -- The file of the response is not there any more.
  abbrev pub IsGone : CachedResponse → Type 0
  IsGone resp = (remove resp.content_hash ≡ gone) ⊎ (remove resp.content_hash ≡ was_absent)

  -- Every file is tried, and without an error each of them is gone.
  remove_files-tried :
      (value : CachedResponses) (tried : List String) (err : Option RemoveError)
      → (remove_files remove value (tried, err)).0 ≡ tried ++ hashes value
  unfolding remove_files
  remove_files-tried [] tried err = sym (append-nil tried)
  remove_files-tried (resp ∷ value) tried err =
      remove_files-tried value (tried ++ resp.content_hash ∷ []) _
      ∙ append_assoc tried (resp.content_hash ∷ []) (hashes value)

  error_stays :
      (value : CachedResponses) (tried : List String) (err : Option RemoveError)
      → (remove_files remove value (tried, err)).1 ≡ none
      → (err ≡ none) × All IsGone value
  unfolding remove_files
  error_stays [] tried err h = (h, tt)
  error_stays (resp ∷ value) tried err h =
      let (clear, all) = error_stays value (tried ++ resp.content_hash ∷ []) _ h in
      let (no_err, here) = noted-none (remove resp.content_hash) err clear in (no_err, (here, all))

module _ (badger : Badger) (codec : Codec CachedResponses badger.Bytes) (laws : BadgerLaws badger)
    (remove : String → Removed) where
  deleted :
      (db db' : badger.Db) (key : String) (entry : Entry CachedResponses) (tried : List String)
      (d : badger.Db × Option DbError)
      → removed badger codec remove entry d ≡ (db', tried, none)
      → (d ≡ (db', none)) × (tried ≡ hashes entry.value) × All (IsGone remove) entry.value
  deleted db db' key entry tried (d, some err) h = absurd (ground (arith, h))
  deleted db db' key entry tried (d, none) h =
      let files = remove_files remove entry.value ([], none) in
      let same : d ≡ db' = ground (arith, h) in
      let tried_files : files.0 ≡ tried = ground (arith, h) in
      let no_error : files.1 ≡ none = ground (arith, h) in
      (
        ap (λ x. (x, none)) same,
        sym tried_files ∙ remove_files-tried remove entry.value [] none,
        (error_stays remove entry.value [] none no_error).1,
      )

  -- If removing a key returns no error, the key had an entry and is missing afterwards, and the file
  -- of every response of the entry was tried, in order, and is gone.
  pub remove_key-IsGone :
      (db db' : badger.Db) (key : String) (tried : List String)
      → remove_key badger codec db key remove ≡ (db', tried, none)
      → (entry : Entry CachedResponses) × (get badger codec db key fresh_entry ≡ (entry, none))
        × (badger.txn_get db' key ≡ missing)
        × (tried ≡ hashes entry.value)
        × All (IsGone remove) entry.value
  unfolding remove_key
  remove_key-IsGone db db' key tried h =
      elim (Option-cases (get badger codec db key fresh_entry).1) [
        | inr (err, e) ↦ absurd (ground (arith, e, h))
        | inl e ↦
            let entry = (get badger codec db key fresh_entry).0 in
            let (d, t, all) =
              deleted db db' key entry tried (delete badger codec db key entry)
                (ground (arith, e, h)) in
            (
              entry,
              ap (λ err. (entry, err)) e,
              delete-missing badger codec laws db db' key entry d,
              t,
              all,
            )
      ]
