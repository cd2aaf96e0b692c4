-- ===== src/Tests/Database.antt =====
-- The store on a database that keeps its history.
use locaccel.Prelude.{
  ℕ, ◌<◌, String, [], ◌∷◌, none, some, ◌≡◌, ◌≢◌, ◌⊎◌, refl, arith, ◌==◌, eq_iff, true,
}
use locaccel.Database.{found, missing, Entry, conflict, get, save, delete, new}
use locaccel.Database.Laws.{IsBelow}
use locaccel.Database.Versions.{get-save, second_writer_conflicts}
use locaccel.Database.Created.{Deletes, get-new}
use locaccel.Tests.Store.{Shelf, look, shelf, shelf_laws, same, same_laws}

abbrev stored : Shelf ℕ
stored = ("b", some 20) ∷ ("a", some 10) ∷ []

-- the entry of "a" with a new value
abbrev edited : Entry ℕ
edited = record { value = 11; version = 1 }

abbrev saved : Shelf ℕ
saved = ("a", some 11) ∷ stored

get-save_example :
    ((look stored "a" ≡ missing) ⊎ ((old : ℕ) × (look stored "a" ≡ found old edited.version)))
    × ((v : ℕ) × (get (shelf ℕ) (same ℕ) saved "a" (record { value = 7; version = 5 })
          ≡ (record { value = 11; version = v }, none))
        × (0 < v)
        × IsBelow (look stored "a") v)
unfolding save
get-save_example =
    get-save (shelf ℕ) (same ℕ) (shelf_laws ℕ) (same_laws ℕ) stored saved "a" edited
      (record { value = 7; version = 5 }) refl

abbrev a_key : String
a_key = "a"

a_is_not_b : a_key ≢ "b"
a_is_not_b e =
    let same_test : ("a" == "b") ≡ true = (eq_iff "a" "b").1 e in absurd (ground (arith, same_test))

abbrev late : Entry ℕ
late = record { value = 12; version = 1 }

second_writer_conflicts_example :
    (save (shelf ℕ) (same ℕ) saved "a" late ≡ (saved, some conflict))
    × (delete (shelf ℕ) (same ℕ) saved "a" late ≡ (saved, some conflict))
unfolding save
second_writer_conflicts_example =
    second_writer_conflicts (shelf ℕ) (same ℕ) (shelf_laws ℕ) (same_laws ℕ) stored saved "a" edited
      late 10 12 refl refl refl

get-new_example :
    ((look stored "c" ≡ missing) ⊎ ((old : ℕ) × (look stored "c" ≡ found old 0)))
    × (v : ℕ) × (get (shelf ℕ) (same ℕ) (("c", some 30) ∷ stored) "c" edited
        ≡ (record { value = 30; version = v }, none))
    × (0 < v)
    × (new (shelf ℕ) (same ℕ) (("c", some 30) ∷ stored) "c" 31
        ≡ (("c", some 30) ∷ stored, some conflict))
    × Deletes
        (shelf ℕ)
        (same ℕ)
        (shelf_laws ℕ)
        (same_laws ℕ)
        (("c", some 30) ∷ stored)
        "c"
        (record { value = 30; version = v })
        edited
unfolding new save
get-new_example =
    get-new (shelf ℕ) (same ℕ) (shelf_laws ℕ) (same_laws ℕ) stored (("c", some 30) ∷ stored) "c" 30
      31 31 edited refl refl
