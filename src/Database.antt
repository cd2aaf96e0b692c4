-- ===== src/Database.antt =====
-- internal/database/database.go: a typed store over the key-value database Badger, in which an
-- entry carries the version at which it was read.
pub mod Laws
pub mod Versions
pub mod Created
pub mod Deleted
use locaccel.Prelude.{
  ℕ, String, List, [], ◌∷◌, Option, none, some, Bool, true, false, not, eqb, if◌then◌else◌,
}

-- The answer of `txn.Get`: the bytes and the version of an item, `ErrKeyNotFound`, or another error.
pub data Lookup (B : Type 0) : Type 0 where
  found : B → ℕ → Lookup B
  missing failed : Lookup B

-- Badger. A transaction that writes gives the new database, or none if the write or the commit
-- fails; then nothing is written. `stream` is what `stream.Orchestrate` hands on, in its order.
pub record Badger : Type 1 where
  pub Db : Type 0
  pub Bytes : Type 0
  pub txn_get : Db → String → Lookup Bytes
  pub txn_set : Db → String → Bytes → Option Db
  pub txn_delete : Db → String → Option Db
  pub stream : Db → Option (List (String × Bytes × ℕ))

-- The generated methods `MarshalMsg` and `UnmarshalMsg`. The second writes into a value, and may
-- have written part of it when it fails.
pub record Codec (V B : Type 0) : Type 0 where
  pub marshal : V → Option B
  pub unmarshal : B → V → V × Bool

pub data DbError : Type 0 where
  key_not_found conflict unexpected : DbError

pub record Entry (V : Type 0) : Type 0 where
  pub value : V
  pub version : ℕ

module _ (badger : Badger) {V : Type 0} (codec : Codec V badger.Bytes) where
  open badger use {Db, Bytes, txn_get, txn_set, txn_delete, stream}
  open codec use {marshal, unmarshal}

  abbrev decoded : ℕ → V × Bool → Entry V × Option DbError
  decoded version (value, ok) =
      (record { value = value; version = version }, if ok then none else some unexpected)

  abbrev loaded : Entry V → Lookup Bytes → Entry V × Option DbError
  loaded entry missing = (record entry { version = 0 }, some key_not_found)
  loaded entry failed = (entry, some unexpected)
  loaded entry (found bytes version) = decoded version (unmarshal bytes entry.value)

  -- The entry is written in place: it comes back beside the error.
  unfoldable pub get : Db → String → Entry V → Entry V × Option DbError
  get db key entry = loaded entry (txn_get db key)

  abbrev pub committed : Db → Option Db → Db × Option DbError
  committed db none = (db, some unexpected)
  committed db (some db') = (db', none)

  abbrev pub checked_set : Db → String → Bytes → ℕ → Lookup Bytes → Db × Option DbError
  checked_set db key bytes version failed = (db, some unexpected)
  checked_set db key bytes version missing = committed db (txn_set db key bytes)
  checked_set db key bytes version (found old current) =
      if not (eqb current version) then (db, some conflict) else committed db (txn_set db key bytes)

  abbrev set_marshalled : Db → String → Entry V → Option Bytes → Db × Option DbError
  set_marshalled db key entry none = (db, some unexpected)
  set_marshalled db key entry (some bytes) = checked_set db key bytes entry.version (txn_get db key)

  unfoldable pub save : Db → String → Entry V → Db × Option DbError
  save db key entry = set_marshalled db key entry (marshal entry.value)

  unfoldable pub new : Db → String → V → Db × Option DbError
  unfolding save
  new db key value = save db key (record { value = value; version = 0 })

  abbrev pub checked_delete : Db → String → ℕ → Lookup Bytes → Db × Option DbError
  checked_delete db key version failed = (db, some unexpected)
  checked_delete db key version missing = (db, none)
  checked_delete db key version (found old current) =
      if not (eqb current version) then (db, some conflict) else committed db (txn_delete db key)

  unfoldable pub delete : Db → String → Entry V → Db × Option DbError
  delete db key entry = checked_delete db key entry.version (txn_get db key)

-- `stream.Send` over all the items, with a state that `apply` writes: an item that does not decode,
-- and an error of `apply`, end the loop. `fresh` is `new(T)`.
module _ {V B S : Type 0} (codec : Codec V B) (fresh : V)
    (apply : String → Entry V → S → S × Bool) where
  abbrev pub applied : String → ℕ → V × Bool → S → S × Bool
  applied key version (value, false) s = (s, false)
  applied key version (value, true) s = apply key (record { value = value; version = version }) s

  unfoldable pub send : List (String × B × ℕ) → S → S × Bool
  send [] s = (s, true)
  send ((key, bytes, version) ∷ kvs) s =
      let (s', ok) = applied key version (codec.unmarshal bytes fresh) s in
      let rest = send kvs s' in if ok then rest else (s', false)

  abbrev pub streamed : Option (List (String × B × ℕ)) → S → S × Bool
  streamed none s = (s, false)
  streamed (some kvs) s = send kvs s

module _ (badger : Badger) {V S : Type 0} (codec : Codec V badger.Bytes) (fresh : V)
    (apply : String → Entry V → S → S × Bool) where
  unfoldable pub iterate : badger.Db → S → S × Bool
  unfolding send
  iterate db s = streamed codec fresh apply (badger.stream db) s
