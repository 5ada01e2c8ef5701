-- ===== src/Examples/Storages.antt =====
-- A storage of texts, where the empty text cannot be cloned: tests, and the theorems applied to it.
use generic_ai.Base.{ℕ, ◌+◌, String, ◌≡◌, refl, Bool, false, not, ◌&&◌, ◌==◌, some, [], ◌∷◌}
use generic_ai.Base.Text.{is_empty, trim}
use generic_ai.Base.Dict.{Dict, lookup, set}
use generic_ai.Base.Exec.{ok, err}
use generic_ai.Storage.{
  invalid_name, non_cloneable_value, Storage, RecordSnapshot, first_record, ensured, get, snapshot,
  restore, normalize_name,
}
use generic_ai.Storage.Methods.{set_value}
use generic_ai.Storage.Laws.{IsCleanAll, restore-snapshot}
use generic_ai.Storage.Writing.{stored, written, due, shown, set_value-get}
use generic_ai.Storage.Objects.{is_plain, object_of}

abbrev clock : ℕ → ℕ
clock n = 100 + n

abbrev cloneable : String → Bool
cloneable v = not (is_empty v)

abbrev notes : Storage String
notes = record {
  namespaces =
      ("notes", ("a", first_record "one" 5) ∷ ("b", first_record "two" 6) ∷ [])
      ∷ ("empty", [])
      ∷ [];
  now_calls = 3;
}

notes_clean : IsCleanAll cloneable notes.namespaces
unfolding normalize_name trim is_plain
notes_clean =
    (refl, refl, ((refl, refl), refl, refl, ((refl, refl), refl, refl, tt)), (refl, refl, tt, tt))

set_trims :
    (get cloneable "notes" " c " (set_value cloneable clock " notes " "c" "three" notes).1).0
    ≡ ok (some "three")
unfolding get set_value trim lookup set
set_trims = refl

no_name : (set_value cloneable clock "  " "c" "three" notes).0 ≡ err invalid_name
unfolding set_value trim
no_name = refl

no_clone : (set_value cloneable clock "notes" "c" "" notes).0 ≡ err non_cloneable_value
unfolding set_value trim
no_clone = refl

restore-snapshot_example :
    (saved : Dict (Dict (RecordSnapshot String))) × (snapshot cloneable notes ≡ (ok saved, notes))
    × (restore cloneable saved (record { namespaces = []; now_calls = 9 })
        ≡ (ok tt, record { namespaces = notes.namespaces; now_calls = 9 }))
restore-snapshot_example =
    restore-snapshot cloneable notes (record { namespaces = []; now_calls = 9 }) notes_clean

set_value-get_example :
    ((set_value cloneable clock " notes" "a" "uno" notes).1 ≡ written clock "notes" "a" notes "uno")
    × (get cloneable " notes" "a" (written clock "notes" "a" notes "uno")
        ≡ (ok (some "uno"), ensured "notes" (written clock "notes" "a" notes "uno")))
    × (stored "notes" "a" (written clock "notes" "a" notes "uno")
        ≡ some (due (stored "notes" "a" notes) "uno" 103))
    × ((set_value cloneable clock " notes" "a" "uno" notes).0
        ≡ ok (shown "a" (due (stored "notes" "a" notes) "uno" 103)))
    × ((m j : String)
        → ("notes" == m && "a" == j) ≡ false
        → stored m j (written clock "notes" "a" notes "uno") ≡ stored m j notes)
set_value-get_example =
    set_value-get cloneable clock " notes" "a" "notes" "a" notes
      (unfold normalize_name trim in refl) (unfold normalize_name trim in refl) "uno" refl

-- Array indices come first in an object, and `__proto__` not at all.
order_of_keys :
    object_of {A = ℕ} [] (("b", 1) ∷ ("10", 2) ∷ ("__proto__", 3) ∷ ("9", 4) ∷ [])
    ≡ ("9", 4) ∷ ("10", 2) ∷ ("b", 1) ∷ []
unfolding object_of set
order_of_keys = refl
