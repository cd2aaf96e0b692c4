-- ===== src/Tests/Store.antt =====
-- A database that keeps the history of its writes, as a concrete Badger, and a codec for it.
use locaccel.Prelude.{
  ℕ, suc, ◌<◌, String, List, [], ◌∷◌, Option, none, some, Bool, true, false, length, if◌then◌else◌,
  arith, ◌≡◌, ◌≢◌, refl, sym, ap, ◌∙◌, ◌==◌, eq_iff, eq_refl, Bool-cases, inl, inr,
}
use locaccel.Database.{Lookup, found, missing, Badger, Codec}
use locaccel.Database.Laws.{BadgerLaws, CodecLaws, IsBelow}

-- The writes, the last one first; a delete has no bytes.
abbrev pub Shelf : Type 0 → Type 0
Shelf B = List (String × Option B)

module _ {B : Type 0} where
  abbrev read_write : ℕ → Option B → Lookup B
  read_write version none = missing
  read_write version (some b) = found b version

  -- The version of an item is the number of writes up to it.
  abbrev pub look : Shelf B → String → Lookup B
  look [] key = missing
  look ((k, write) ∷ db) key =
      let rest = look db key in if k == key then read_write (suc (length db)) write else rest

  abbrev without_key : String → List (String × B × ℕ) → List (String × B × ℕ)
  without_key key [] = []
  without_key key ((k, b, version) ∷ kvs) =
      let rest = without_key key kvs in if k == key then rest else (k, b, version) ∷ rest

  abbrev item : String → ℕ → Option B → List (String × B × ℕ) → List (String × B × ℕ)
  item key version none kvs = kvs
  item key version (some b) kvs = (key, b, version) ∷ kvs

  abbrev items : Shelf B → List (String × B × ℕ)
  items [] = []
  items ((key, write) ∷ db) = item key (suc (length db)) write (without_key key (items db))

  IsBelow-read :
      (version bound : ℕ) (write : Option B)
      → version < bound
      → IsBelow (read_write version write) bound
  IsBelow-read version bound none h = tt
  IsBelow-read version bound (some b) h = h

  IsBelow-if :
      (b : Bool) (l k : Lookup B) (bound : ℕ)
      → IsBelow l bound
      → IsBelow k bound
      → IsBelow (if b then l else k) bound
  IsBelow-if true l k bound h h' = h
  IsBelow-if false l k bound h h' = h'

  IsBelow-look :
      (db : Shelf B) (key : String) (bound : ℕ) → length db < bound → IsBelow (look db key) bound
  IsBelow-look [] key bound h = tt
  IsBelow-look ((k, write) ∷ db) key bound h =
      IsBelow-if (k == key) (read_write (suc (length db)) write) (look db key) bound
        (IsBelow-read (suc (length db)) bound write h)
        (IsBelow-look db key bound (omega (arith, h)))

  look_ne :
      (db : Shelf B) (key other : String) (write : Option B)
      → key ≢ other
      → look ((key, write) ∷ db) other ≡ look db other
  look_ne db key other write ne = elim (Bool-cases (key == other)) [
    | inl e ↦ absurd (ne ((eq_iff key other).0 e))
    | inr e ↦ rw e refl
  ]

  look_self :
      (db db' : Shelf B) (key : String) (write : Option B)
      → some ((key, write) ∷ db) ≡ some db'
      → look db' key ≡ read_write (suc (length db)) write
  look_self db db' key write h =
      let e : (key, write) ∷ db ≡ db' = ground (arith, h) in
      ap (λ d. look d key) (sym e) ∙ rw (eq_refl key) refl

  look_other :
      (db db' : Shelf B) (key other : String) (write : Option B)
      → some ((key, write) ∷ db) ≡ some db'
      → key ≢ other
      → look db' other ≡ look db other
  look_other db db' key other write h ne =
      let e : (key, write) ∷ db ≡ db' = ground (arith, h) in
      ap (λ d. look d other) (sym e) ∙ look_ne db key other write ne

module _ (B : Type 0) where
  abbrev pub shelf : Badger
  shelf = record {
    Db = Shelf B;
    Bytes = B;
    txn_get = look;
    txn_set = λ db key b. some ((key, some b) ∷ db);
    txn_delete = λ db key. some ((key, none) ∷ db);
    stream = λ db. some (items db);
  }

  pub shelf_laws : BadgerLaws shelf
  shelf_laws = record {
    get-set_self = λ db db' key b h. (
      suc (length db),
      look_self db db' key (some b) h,
      omega arith,
      IsBelow-look db key (suc (length db)) (omega arith),
    );
    get-set_ne = λ db db' key other b h ne. look_other db db' key other (some b) h ne;
    get-delete_self = λ db db' key h. look_self db db' key none h;
    get-delete_ne = λ db db' key other h ne. look_other db db' key other none h ne;
  }

  abbrev pub same : Codec B B
  same = record { marshal = λ v. some v; unmarshal = λ b old. (b, true) }

  pub same_laws : CodecLaws same
  same_laws = record { unmarshal-marshal = λ value old b h. ground (arith, h) }
