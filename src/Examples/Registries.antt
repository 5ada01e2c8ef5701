-- ===== src/Examples/Registries.antt =====
-- A small registry with numbers for values.
use generic_ai.Base.{
  ℕ, suc, ◌≡◌, refl, true, false, none, some, [], ◌∷◌, ◌⊎◌, ◌==◌, if◌then◌else◌, String,
}
use generic_ai.Base.Text.{trim, is_empty}
use generic_ai.Base.Dict.{has, lookup, set}
use generic_ai.Base.Exec.{ok, err}
use generic_ai.Registry.{Registry, register, get, delete, size, invalid_key, duplicate_entry}
use generic_ai.Registry.Laws.{
  IsValid, registers, deletes, after, after-IsValid, register_cases, get-delete,
}

abbrev tools : Registry ℕ
tools = record { name = "tools"; map = ("read", 1) ∷ ("write", 2) ∷ [] }

register_trims :
    register " edit " 3 tools
    ≡ (ok 3, record { name = "tools"; map = ("read", 1) ∷ ("write", 2) ∷ ("edit", 3) ∷ [] })
unfolding register trim lookup set
register_trims = refl

tools-IsValid : IsValid tools
unfolding trim
tools-IsValid = record {
  distinct = (refl, (refl, tt));
  normal = ((refl, refl), ((refl, refl), tt));
}

after-IsValid_example :
    IsValid (after tools (registers " edit " 3 ∷ registers "read" 4 ∷ deletes "write" ∷ []))
after-IsValid_example =
    after-IsValid tools (registers " edit " 3 ∷ registers "read" 4 ∷ deletes "write" ∷ [])
      tools-IsValid

edit_is_registered :
    ((is_empty (trim " edit ") ≡ true)
      × (register " edit " 3 tools
          ≡ (err (record { code = invalid_key; registry_name = "tools"; key = " edit " }), tools)))
    ⊎ ((has (trim " edit ") tools.map ≡ true)
        × (register " edit " 3 tools ≡ (
          err (record { code = duplicate_entry; registry_name = "tools"; key = trim " edit " }),
          tools,
        )))
    ⊎ (((register " edit " 3 tools).0 ≡ ok 3)
        × (size (register " edit " 3 tools).1 ≡ suc (size tools))
        × ((j : String)
            → is_empty (trim j) ≡ false
            → get j (register " edit " 3 tools).1
              ≡ (if trim " edit " == trim j then ok (some 3) else get j tools)))
edit_is_registered = register_cases " edit " 3 tools

delete_and_get :
    ((delete " read" tools).0 ≡ ok (has (trim " read") tools.map))
    × (get "write " (delete " read" tools).1
        ≡ (if trim " read" == trim "write " then ok none else get "write " tools))
delete_and_get = get-delete " read" "write " tools (unfold trim in refl) (unfold trim in refl)
