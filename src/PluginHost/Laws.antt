-- ===== src/PluginHost/Laws.antt =====
-- plugin-host.ts: what a checked manifest satisfies, and what `register` keeps and changes.
use generic_ai.Base.{
  String, ◌≡◌, refl, false, Option, none, some, List, [], ◌∷◌, ◌++◌, arith, ◌==◌, All, All-append,
  Distinct, Distinct-snoc, inl, inr, contains, contains-append, get_or, subst,
}
use generic_ai.Base.Text.{trim_idem}
use generic_ai.Base.Exec.{ok, ok-injective, Result-cases}
use generic_ai.Registry.Laws.{IsKey}
use generic_ai.PluginHost.Types.{
  RawItem, item_text, item_other, RawDependencies, deps_undefined, deps_array, deps_other,
  RawManifest, raw_object, raw_other, id_text, id_other, Manifest, dependencies_of,
  normalize_plugin_id, check_dependency, dependencies_loop, normalize_dependencies,
  validate_manifest, if_any, replaced,
}

-- A dependency list as the host accepts it: trimmed, not blank, no text twice, not the plugin itself.
pub record AreDependencies (id : String) (ds : List String) : Type 0 where
  pub normal : All IsKey ds
  pub distinct : Distinct ds
  pub not_itself : contains ds id ≡ false

no_dependencies : (id : String) → AreDependencies id []
no_dependencies id = record { normal = tt; distinct = tt; not_itself = refl }

if_any_same : (ds : List String) → ds ≡ get_or (if_any ds) []
if_any_same [] = refl
if_any_same (d ∷ ds) = refl

replaced_same :
    (o : Option (List String)) (raw : RawDependencies) → get_or o [] ≡ get_or (replaced o raw) []
replaced_same none deps_undefined = refl
replaced_same none (deps_array items) = refl
replaced_same none deps_other = refl
replaced_same (some ds) raw = refl

check_dependency-ok :
    (id : String) (seen : List String) (d n : String)
    → check_dependency id seen d ≡ ok n
    → IsKey n × (contains seen n ≡ false) × (n == id ≡ false)
unfolding check_dependency
check_dependency-ok id seen d n e = ground (arith, trim_idem d)

dependencies_loop-ok :
    (id : String) (seen : List String) (items : List RawItem) (ds : List String)
    → AreDependencies id seen
    → dependencies_loop id seen items ≡ ok ds
    → AreDependencies id ds
unfolding dependencies_loop
dependencies_loop-ok id seen [] ds h e = subst (AreDependencies id) (ok-injective e) h
dependencies_loop-ok id seen (item_other ∷ items) ds h e = cc
dependencies_loop-ok id seen (item_text d ∷ items) ds h e =
    elim (Result-cases (check_dependency id seen d)) [
      | inr (x, bad) ↦ cc (rw (bad, dependencies_loop) at e)
      | inl (n, good) ↦
          let (key, new, other) = check_dependency-ok id seen d n good in
          dependencies_loop-ok id (seen ++ n ∷ []) items ds
            (record {
              normal = All-append IsKey seen (n ∷ []) h.normal (key, tt);
              distinct = Distinct-snoc seen n h.distinct new;
              not_itself = ground (arith, contains-append seen (n ∷ []) id, h.not_itself);
            })
            (rw (good, dependencies_loop) at e)
    ]

normalize_dependencies-ok :
    (id : String) (raw : RawDependencies) (o : Option (List String))
    → normalize_dependencies id raw ≡ ok o
    → AreDependencies id (get_or o [])
unfolding normalize_dependencies
normalize_dependencies-ok id deps_undefined o e =
    subst (λ t. AreDependencies id (get_or t [])) (ok-injective e) (no_dependencies id)
normalize_dependencies-ok id deps_other o e = cc
normalize_dependencies-ok id (deps_array items) o e =
    elim (Result-cases (dependencies_loop id [] items)) [
      | inr (x, bad) ↦ cc (rw (bad, normalize_dependencies) at e)
      | inl (ds, good) ↦
          subst (λ t. AreDependencies id (get_or t []))
            (ok-injective (rw (good, normalize_dependencies) at e))
            (subst (AreDependencies id) (if_any_same ds)
              (dependencies_loop-ok id [] items ds (no_dependencies id) good))
    ]

normalize_plugin_id-ok : (raw id : String) → normalize_plugin_id raw ≡ ok id → IsKey id
unfolding normalize_plugin_id
normalize_plugin_id-ok raw id e = ground (arith, trim_idem raw)

-- A manifest that `validatePluginManifest` returns has a trimmed id that is not blank, and its
-- dependencies are trimmed, not blank, pairwise distinct and other than the id.
pub validate_manifest-ok :
    {R : Type 0} (raw : RawManifest R) (m : Manifest R)
    → validate_manifest raw ≡ ok m
    → IsKey m.id × AreDependencies m.id (dependencies_of m)
unfolding validate_manifest
validate_manifest-ok raw_other m e = cc
validate_manifest-ok (raw_object id_other deps rest) m e = cc
validate_manifest-ok (raw_object (id_text raw_id) deps rest) m e =
    elim (Result-cases (normalize_plugin_id raw_id)) [
      | inr (x, bad) ↦ cc (rw (bad, validate_manifest) at e)
      | inl (id, good) ↦ elim (Result-cases (normalize_dependencies id deps)) [
        | inr (x, bad) ↦ cc (rw (good, validate_manifest, bad) at e)
        | inl (ds, fine) ↦
            subst (λ t. IsKey t.id × AreDependencies t.id (dependencies_of t))
              (ok-injective (rw (good, validate_manifest, fine) at e))
              (
                normalize_plugin_id-ok raw_id id good,
                subst (AreDependencies id) (replaced_same ds deps)
                    (normalize_dependencies-ok id deps ds fine),
              )
      ]
    ]
