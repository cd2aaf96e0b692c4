-- ===== src/Database/Laws.antt =====
-- What the program relies on of Badger and of the generated codec.
use locaccel.Prelude.{ℕ, ◌<◌, String, some, true, ◌≡◌, ◌≢◌}
use locaccel.Database.{Lookup, found, missing, failed, Badger, Codec}

-- The version of an item that was there is below `v`.
abbrev pub IsBelow : {B : Type 0} → Lookup B → ℕ → Type 0
IsBelow (found b u) v = u < v
IsBelow missing v = Unit
IsBelow failed v = Unit

-- A committed write is read back, with a version above 0 and above the one that it replaces, and it
-- leaves the other keys alone; a committed delete removes its key alone.
pub record BadgerLaws (badger : Badger) : Type 0 where
  pub get-set_self :
      (db db' : badger.Db) (key : String) (b : badger.Bytes)
      → badger.txn_set db key b ≡ some db'
      → (v : ℕ) × (badger.txn_get db' key ≡ found b v) × (0 < v) × IsBelow (badger.txn_get db key) v
  pub get-set_ne :
      (db db' : badger.Db) (key other : String) (b : badger.Bytes)
      → badger.txn_set db key b ≡ some db'
      → key ≢ other
      → badger.txn_get db' other ≡ badger.txn_get db other
  pub get-delete_self :
      (db db' : badger.Db) (key : String)
      → badger.txn_delete db key ≡ some db'
      → badger.txn_get db' key ≡ missing
  pub get-delete_ne :
      (db db' : badger.Db) (key other : String)
      → badger.txn_delete db key ≡ some db'
      → key ≢ other
      → badger.txn_get db' other ≡ badger.txn_get db other

-- What is marshalled is unmarshalled, whatever the value that is written into.
pub record CodecLaws {V B : Type 0} (codec : Codec V B) : Type 0 where
  pub unmarshal-marshal :
      (value old : V) (b : B) → codec.marshal value ≡ some b → codec.unmarshal b old ≡ (value, true)
