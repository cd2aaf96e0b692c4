-- ===== src/Database/Versions.antt =====
-- Optimistic concurrency: who saves an entry that was changed since it was read is refused.
use locaccel.Prelude.{
  ℕ, ◌<◌, String, none, some, ◌≡◌, ◌≢◌, ◌⊎◌, inl, inr, arith, refl, Option-cases,
}
use locaccel.Database.{
  Lookup, found, missing, failed, Badger, Codec, conflict, Entry, get, save, delete, checked_set,
}
use locaccel.Database.Laws.{BadgerLaws, CodecLaws, IsBelow}

module _ (badger : Badger) {V : Type 0} (codec : Codec V badger.Bytes) (laws : BadgerLaws badger)
    (codec_laws : CodecLaws codec) where
  open badger use {Db, Bytes, txn_get, txn_set, txn_delete}
  open codec use {marshal}

  committed_by_set :
      (db db' : Db) (key : String) (b : Bytes) (version : ℕ) (l : Lookup Bytes)
      → checked_set badger codec db key b version l ≡ (db', none)
      → (txn_set db key b ≡ some db') × ((l ≡ missing) ⊎ ((old : Bytes) × (l ≡ found old version)))
  committed_by_set db db' key b version missing h = (ground arith, inl refl)
  committed_by_set db db' key b version failed h = absurd (ground arith)
  committed_by_set db db' key b version (found old current) h =
      (ground arith, inr (old, ground arith))

  -- What a save that went through did.
  pub save_committed :
      (db db' : Db) (key : String) (entry : Entry V)
      → save badger codec db key entry ≡ (db', none)
      → (b : Bytes) × (marshal entry.value ≡ some b)
        × (txn_set db key b ≡ some db')
        × ((txn_get db key ≡ missing)
            ⊎ ((old : Bytes) × (txn_get db key ≡ found old entry.version)))
  unfolding save
  save_committed db db' key entry h = elim (Option-cases (marshal entry.value)) [
    | inl e ↦ absurd (ground (arith, e))
    | inr (b, e) ↦
        let (set, before) =
          committed_by_set db db' key b entry.version (txn_get db key) (ground (arith, e)) in
        (b, e, set, before)
  ]

  -- A save that goes through found the key missing, or at the version of the entry. After it the key
  -- reads as the saved value, at a version above 0 and above the one before, whatever entry it
  -- is read into.
  pub get-save :
      (db db' : Db) (key : String) (entry into : Entry V)
      → save badger codec db key entry ≡ (db', none)
      → ((txn_get db key ≡ missing) ⊎ ((old : Bytes) × (txn_get db key ≡ found old entry.version)))
        × ((v : ℕ) × (get badger codec db' key into
              ≡ (record { value = entry.value; version = v }, none))
            × (0 < v)
            × IsBelow (txn_get db key) v)
  unfolding get
  get-save db db' key entry into h =
      let (b, m, set, before) = save_committed db db' key entry h in
      let (v, at, pos, newer) = laws.get-set_self db db' key b set in
      (
        before,
        (v, rw (at, codec_laws.unmarshal-marshal entry.value into.value b m) refl, pos, newer),
      )

  -- It leaves what every other key reads as alone.
  get-save_ne :
      (db db' : Db) (key other : String) (entry into : Entry V)
      → save badger codec db key entry ≡ (db', none)
      → key ≢ other
      → get badger codec db' other into ≡ get badger codec db other into
  unfolding get
  get-save_ne db db' key other entry into h ne =
      let (b, m, set, before) = save_committed db db' key entry h in
      rw (laws.get-set_ne db db' key other b set ne) refl

  txn_get-set_ne :
      (db : Db) (key other : String) (b : Bytes) (version : ℕ) (l : Lookup Bytes)
      → key ≢ other
      → txn_get (checked_set badger codec db key b version l).0 other ≡ txn_get db other
  txn_get-set_ne db key other b version failed ne = refl
  txn_get-set_ne db key other b version missing ne = elim (Option-cases (txn_set db key b)) [
    | inl e ↦ rw e refl
    | inr (db', e) ↦ rw e (laws.get-set_ne db db' key other b e ne)
  ]
  txn_get-set_ne db key other b version (found old current) ne =
      elim (Option-cases (txn_set db key b)) [
        | inl e ↦ ground (arith, e)
        | inr (db', e) ↦ ground (arith, e, laws.get-set_ne db db' key other b e ne)
      ]

  -- The same of a save that may fail.
  pub txn_get-save_ne :
      (db : Db) (key other : String) (entry : Entry V)
      → key ≢ other
      → txn_get (save badger codec db key entry).0 other ≡ txn_get db other
  unfolding save
  txn_get-save_ne db key other entry ne = elim (Option-cases (marshal entry.value)) [
    | inl e ↦ rw e refl
    | inr (b, e) ↦ rw e (txn_get-set_ne db key other b entry.version (txn_get db key) ne)
  ]

  -- Of two entries that were read at the same version of a key, once one is saved, the other can
  -- neither be saved nor delete the key, and the database stays as it is: no update is lost.
  pub second_writer_conflicts :
      (db db' : Db) (key : String) (first second : Entry V) (read bytes : Bytes)
      → txn_get db key ≡ found read second.version
      → save badger codec db key first ≡ (db', none)
      → marshal second.value ≡ some bytes
      → (save badger codec db' key second ≡ (db', some conflict))
        × (delete badger codec db' key second ≡ (db', some conflict))
  unfolding save delete
  second_writer_conflicts db db' key first second read bytes was saved m =
      let (b, m', set, before) = save_committed db db' key first saved in
      let (v, at, pos, newer) = laws.get-set_self db db' key b set in
      let newer' : second.version < v = rw was at newer in
      (rw (m, at) (ground (arith, newer')), rw at (ground (arith, newer')))
