-- ===== src/PluginHost/Types.antt =====
-- plugin-host/types.ts, plugin-host/errors.ts and the manifest checks of plugin-host/plugin-host.ts.
use generic_ai.Base.{
  String, Option, none, some, List, [], ◌∷◌, ◌++◌, contains, if◌then◌else◌, ◌==◌, get_or,
}
use generic_ai.Base.Text.{trim, is_empty}
use generic_ai.Base.Exec.{Result, ok, err}

pub data Field : Type 0 where
  manifest_field id_field dependencies_field : Field

-- What the message of an `invalid-plugin-manifest` issue says.
pub data Reason : Type 0 where
  not_object id_not_string blank_id deps_not_array dep_not_string self_dependency : Reason
  repeated_dependency : String → Reason

pub data Issue : Type 0 where
  invalid_manifest : Field → Option String → Reason → Issue
  duplicate_id : String → Issue
  missing_dependency : (plugin_id dependency_id : String) → (registered_ids : List String) → Issue
  cyclic_dependency : (cycle : List String) → Issue

-- `typeof x === "string"`
pub data RawId : Type 0 where
  id_text : String → RawId
  id_other : RawId

pub data RawItem : Type 0 where
  item_text : String → RawItem
  item_other : RawItem

pub data RawDependencies : Type 0 where
  deps_undefined : RawDependencies
  deps_array : List RawItem → RawDependencies
  deps_other : RawDependencies

pub data RawManifest (R : Type 0) : Type 0 where
  raw_object : RawId → RawDependencies → R → RawManifest R
  raw_other : RawManifest R

pub record Manifest (R : Type 0) : Type 0 where
  pub id : String
  pub dependencies : Option (List String)
  pub rest : R

-- `manifest.dependencies ?? []`
abbrev pub dependencies_of : {R : Type 0} → Manifest R → List String
dependencies_of m = get_or m.dependencies []

unfoldable pub normalize_plugin_id : String → Result Issue String
normalize_plugin_id plugin_id =
    let normalized = trim plugin_id in
    if is_empty normalized then err (invalid_manifest id_field none blank_id) else ok normalized

abbrev bad_dependency : String → Reason → Issue
bad_dependency plugin_id reason = invalid_manifest dependencies_field (some plugin_id) reason

-- The body of the `for` loop, after the type test: the checks on one dependency.
unfoldable pub check_dependency : String → List String → String → Result Issue String
unfolding normalize_plugin_id
check_dependency plugin_id seen dependency = elim (normalize_plugin_id dependency) [
  | err e ↦ err e
  | ok normalized ↦
      if normalized == plugin_id
      then err (bad_dependency plugin_id self_dependency)
      else if contains seen normalized
      then err (bad_dependency plugin_id (repeated_dependency normalized))
      else ok normalized
]

-- The `for` loop. `seen` holds what has been pushed.
unfoldable pub dependencies_loop : String → List String → List RawItem → Result Issue (List String)
unfolding check_dependency
dependencies_loop plugin_id seen [] = ok seen
dependencies_loop plugin_id seen (item_other ∷ items) =
    err (bad_dependency plugin_id dep_not_string)
dependencies_loop plugin_id seen (item_text dependency ∷ items) =
    elim (check_dependency plugin_id seen dependency) [
      | err e ↦ err e
      | ok normalized ↦ dependencies_loop plugin_id (seen ++ normalized ∷ []) items
    ]

abbrev pub if_any : List String → Option (List String)
if_any [] = none
if_any (d ∷ ds) = some (d ∷ ds)

unfoldable pub normalize_dependencies :
    String → RawDependencies → Result Issue (Option (List String))
unfolding dependencies_loop
normalize_dependencies plugin_id deps_undefined = ok none
normalize_dependencies plugin_id deps_other = err (bad_dependency plugin_id deps_not_array)
normalize_dependencies plugin_id (deps_array items) = elim (dependencies_loop plugin_id [] items) [
  | err e ↦ err e
  | ok ds ↦ ok (if_any ds)
]

-- `...candidate` keeps the raw value where no normalised one replaces it: nothing, or an empty array.
abbrev pub kept : RawDependencies → Option (List String)
kept (deps_array items) = some []
kept _ = none

abbrev pub replaced : Option (List String) → RawDependencies → Option (List String)
replaced none raw = kept raw
replaced (some ds) raw = some ds

unfoldable pub validate_manifest : {R : Type 0} → RawManifest R → Result Issue (Manifest R)
unfolding normalize_dependencies
validate_manifest raw_other = err (invalid_manifest manifest_field none not_object)
validate_manifest (raw_object id_other deps rest) =
    err (invalid_manifest id_field none id_not_string)
validate_manifest (raw_object (id_text raw_id) deps rest) = elim (normalize_plugin_id raw_id) [
  | err e ↦ err e
  | ok id ↦ elim (normalize_dependencies id deps) [
    | err e ↦ err e
    | ok ds ↦ ok (record { id = id; dependencies = replaced ds deps; rest = rest })
  ]
]

-- A plugin with its optional lifecycle, of a type `L` that the dependency order does not look at.
pub record Plugin (R L : Type 0) : Type 0 where
  pub manifest : Manifest R
  pub lifecycle : Option L

abbrev pub id_of : {R L : Type 0} → Plugin R L → String
id_of p = p.manifest.id

abbrev pub deps_of : {R L : Type 0} → Plugin R L → List String
deps_of p = dependencies_of p.manifest

abbrev pub ids : {R L : Type 0} → List (Plugin R L) → List String
ids [] = []
ids (p ∷ ps) = id_of p ∷ ids ps
