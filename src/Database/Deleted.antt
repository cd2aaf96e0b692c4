-- ===== src/Database/Deleted.antt =====
-- What a delete that goes through leaves.
use locaccel.Prelude.{
  ℕ, String, none, ◌≡◌, arith, refl, Option-cases, inl, inr, sym, ap, ◌∙◌, Bool-cases, eqb,
}
use locaccel.Database.{
  Lookup, found, missing, failed, Badger, Codec, Entry, delete, checked_delete, committed,
}
use locaccel.Database.Laws.{BadgerLaws}

module _ (badger : Badger) {V : Type 0} (codec : Codec V badger.Bytes)
    (laws : BadgerLaws badger) where
  open badger use {Db, Bytes, txn_get, txn_delete}

  committed_delete :
      (db db' : Db) (key : String)
      → committed badger codec db (txn_delete db key) ≡ (db', none)
      → txn_get db' key ≡ missing
  committed_delete db db' key h = elim (Option-cases (txn_delete db key)) [
    | inl e ↦ absurd (ground (arith, e, h))
    | inr (db₂, e) ↦
        let same : db₂ ≡ db' = ground (arith, e, h) in
        ap (λ d. txn_get d key) (sym same) ∙ laws.get-delete_self db db₂ key e
  ]

  checked_delete-missing :
      (db db' : Db) (key : String) (version : ℕ) (l : Lookup Bytes)
      → txn_get db key ≡ l
      → checked_delete badger codec db key version l ≡ (db', none)
      → txn_get db' key ≡ missing
  checked_delete-missing db db' key version failed e h = absurd (ground (arith, h))
  checked_delete-missing db db' key version missing e h =
      let same : db ≡ db' = ground (arith, h) in ap (λ d. txn_get d key) (sym same) ∙ e
  checked_delete-missing db db' key version (found old current) e h =
      elim (Bool-cases (eqb current version)) [
        | inl v ↦ committed_delete db db' key (ground (arith, v, h))
        | inr v ↦ absurd (ground (arith, v, h))
      ]

  -- After a delete that returns no error the key is missing.
  pub delete-missing :
      (db db' : Db) (key : String) (entry : Entry V)
      → delete badger codec db key entry ≡ (db', none)
      → txn_get db' key ≡ missing
  unfolding delete
  delete-missing db db' key entry h =
      checked_delete-missing db db' key entry.version (txn_get db key) refl h
