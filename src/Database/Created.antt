-- ===== src/Database/Created.antt =====
-- A key that `New` creates, until it is deleted.
use locaccel.Prelude.{ℕ, ◌<◌, String, none, some, ◌≡◌, ◌⊎◌, inl, inr, refl, arith, Option-cases}
use locaccel.Database.{
  Badger, Codec, Entry, found, missing, key_not_found, conflict, unexpected, get, save, new, delete,
}
use locaccel.Database.Laws.{BadgerLaws, CodecLaws}
use locaccel.Database.Versions.{save_committed}

module _ (badger : Badger) {V : Type 0} (codec : Codec V badger.Bytes) (laws : BadgerLaws badger)
    (codec_laws : CodecLaws codec) where
  open badger use {Db, Bytes, txn_get, txn_delete}
  open codec use {marshal}

  -- Badger refuses the deletion, and the database stays as it is, or the key is missing from then on.
  abbrev pub Deletes : Db → String → Entry V → Entry V → Type 0
  Deletes db key entry into =
      (delete badger codec db key entry ≡ (db, some unexpected))
      ⊎ ((db' : Db) × (delete badger codec db key entry ≡ (db', none))
          × (get badger codec db' key into ≡ (record into { version = 0 }, some key_not_found)))

  delete_at :
      (db : Db) (key : String) (b : Bytes) (entry into : Entry V)
      → txn_get db key ≡ found b entry.version
      → Deletes db key entry into
  unfolding delete get
  delete_at db key b entry into at = elim (Option-cases (txn_delete db key)) [
    | inl e ↦ inl (rw at (ground (arith, e)))
    | inr (db', e) ↦
        inr (db', rw at (ground (arith, e)), rw (laws.get-delete_self db db' key e) refl)
  ]

  -- A key that `New` created was missing, or at version 0. It reads as the value, at a version above
  -- 0; a second `New` is refused as a conflict and changes nothing; and the entry that is read deletes
  -- the key, unless Badger refuses it, which changes nothing either.
  pub get-new :
      (db db' : Db) (key : String) (value other : V) (bytes : Bytes) (into : Entry V)
      → new badger codec db key value ≡ (db', none)
      → marshal other ≡ some bytes
      → ((txn_get db key ≡ missing) ⊎ ((old : Bytes) × (txn_get db key ≡ found old 0)))
        × (v : ℕ) × (get badger codec db' key into ≡ (record { value = value; version = v }, none))
        × (0 < v)
        × (new badger codec db' key other ≡ (db', some conflict))
        × Deletes db' key (record { value = value; version = v }) into
  unfolding new get save
  get-new db db' key value other bytes into h m =
      let (b, w, set, before) =
        save_committed badger codec laws codec_laws db db' key
          (record { value = value; version = 0 }) h in
      let (v, at, above, newer) = laws.get-set_self db db' key b set in
      (
        before,
        v,
        rw (at, codec_laws.unmarshal-marshal value into.value b w) refl,
        above,
        rw (m, at) (ground (arith, above)),
        delete_at db' key b (record { value = value; version = v }) into at,
      )
