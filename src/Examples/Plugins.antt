-- ===== src/Examples/Plugins.antt =====
-- Three plugins: `web` needs `queue` and `store`, `queue` needs `store`.
use generic_ai.Base.{
  ℕ, ◌<◌, ◌≡◌, refl, true, Option, none, some, List, [], ◌∷◌, arith, String, Distinct, reverse,
  length, All, ◌==◌, if◌then◌else◌, eq_iff,
}
use generic_ai.Base.Text.{trim}
use generic_ai.Base.Dict.{lookup, set}
use generic_ai.Base.Exec.{ok, err, ◌>>◌}
use mathlib.Core.List.{Mem}
use generic_ai.PluginHost.Types.{
  cyclic_dependency, invalid_manifest, dependencies_field, self_dependency, raw_object, id_text,
  deps_array, deps_undefined, item_text, Plugin, ids, validate_manifest,
}
use generic_ai.PluginHost.Cycle.{find_cycle}
use generic_ai.PluginHost.Cycle.Total.{find_cycle_total}
use generic_ai.PluginHost.Order.{resolve_plugin_order, enumerate, pick}
use generic_ai.PluginHost.Order.Pick.{first_ready, plugin_of, pick-eq-first_ready}
use generic_ai.PluginHost.Order.Plan.{IsOrdered, resolve-IsOrdered}
use generic_ai.PluginHost.Order.Stuck.{depends}
use generic_ai.PluginHost.Order.Cyclic.{Outcome, resolve-Outcome, resolve_acyclic}
use generic_ai.PluginHost.{
  Host, RawPlugin, Lifecycle, setup, start, stop, create_plugin_host, register, list, resolve_order,
  run_lifecycle, run_hooks,
}
use generic_ai.PluginHost.Laws.{AreDependencies, validate_manifest-ok}
use generic_ai.PluginHost.Registration.{
  IsValid, Registered, register-Registered, register_all, register_all-IsValid,
  resolve_order-Outcome,
}
use generic_ai.PluginHost.Lifecycle.{Ran, IsReversed, run_lifecycle_order, run_hooks-append}
use generic_ai.Registry.Laws.{IsKey}

-- A hook writes its plugin's id into the log.
abbrev logging : String → Lifecycle (List String) (Unit {0})
logging id phase = some (λ log. (ok tt, id ∷ log))

abbrev Sample : Type 0
Sample = Plugin (Unit {0}) (Lifecycle (List String) (Unit {0}))

abbrev plugin : String → List String → Sample
plugin id ds = record {
  manifest = record { id = id; dependencies = some ds; rest = tt };
  lifecycle = some (logging id);
}

abbrev web_app : List Sample
web_app =
    plugin "web" ("queue" ∷ "store" ∷ []) ∷ plugin "queue" ("store" ∷ []) ∷ plugin "store" [] ∷ []

abbrev plan : List Sample
plan =
    plugin "store" [] ∷ plugin "queue" ("store" ∷ []) ∷ plugin "web" ("queue" ∷ "store" ∷ []) ∷ []

abbrev looped : List Sample
looped = plugin "a" ("b" ∷ []) ∷ plugin "b" ("c" ∷ []) ∷ plugin "c" ("b" ∷ []) ∷ []

resolve-web_app : resolve_plugin_order web_app ≡ ok plan
unfolding resolve_plugin_order
resolve-web_app = refl

resolve-looped : resolve_plugin_order looped ≡ err (cyclic_dependency ("b" ∷ "c" ∷ "b" ∷ []) ∷ [])
unfolding resolve_plugin_order find_cycle lookup set
resolve-looped = refl

web_app-Distinct : Distinct (ids web_app)
web_app-Distinct = (refl, (refl, (refl, tt)))

resolve-Outcome_example : Outcome web_app (resolve_plugin_order web_app)
resolve-Outcome_example = resolve-Outcome web_app web_app-Distinct

resolve-IsOrdered_example :
    IsOrdered [] plan
    × Distinct (ids plan)
    × (length plan ≡ length web_app)
    × All (λ p. Mem p web_app) plan
resolve-IsOrdered_example = resolve-IsOrdered web_app plan resolve-web_app

abbrev rank : String → ℕ
rank id = if "web" == id then 2 else if "queue" == id then 1 else 0

web_app-rank : (x y : String) → depends web_app x y ≡ true → rank y < rank x
web_app-rank x y h = ground (
  arith,
  eq_iff "web" x,
  eq_iff "queue" x,
  eq_iff "store" x,
  eq_iff "queue" y,
  eq_iff "store" y,
  eq_iff "web" y,
  eq_iff "web" "queue",
  eq_iff "web" "store",
  eq_iff "queue" "store",
)

resolve_acyclic_example : (p : List Sample) × (resolve_plugin_order web_app ≡ ok p)
resolve_acyclic_example =
    resolve_acyclic web_app rank web_app-Distinct (refl, (refl, (refl, tt))) web_app-rank

find_cycle_total_example : (c : List String) × (find_cycle looped ≡ some c)
find_cycle_total_example = find_cycle_total looped

pick-eq-first_ready_example :
    plugin_of ("store" ∷ []) (pick ("store" ∷ []) (enumerate 0 web_app) none)
    ≡ first_ready ("store" ∷ []) web_app
pick-eq-first_ready_example = pick-eq-first_ready ("store" ∷ []) 0 web_app

-- A plugin as it is given: the spelling of its id, its id, and at most one dependency.
abbrev raw :
    String → String → Option String → RawPlugin (Unit {0}) (Lifecycle (List String) (Unit {0}))
raw spelling id none = record {
  manifest = raw_object (id_text spelling) deps_undefined tt;
  lifecycle = some (logging id);
}
raw spelling id (some d) = record {
  manifest = raw_object (id_text spelling) (deps_array (item_text d ∷ [])) tt;
  lifecycle = some (logging id);
}

abbrev raws : List (RawPlugin (Unit {0}) (Lifecycle (List String) (Unit {0})))
raws =
    raw " queue " "queue" (some " store") ∷ raw "store" "store" none ∷ raw "queue" "queue" none ∷ []

abbrev host : Host (Unit {0}) (Lifecycle (List String) (Unit {0}))
host = register_all create_plugin_host raws

abbrev host_plan : List Sample
host_plan =
    record {
      manifest = record { id = "store"; dependencies = none; rest = tt };
      lifecycle = some (logging "store");
    }
    ∷ plugin "queue" ("store" ∷ [])
    ∷ []

resolve-host : resolve_order host ≡ ok host_plan
unfolding resolve_order register_all create_plugin_host register resolve_plugin_order trim lookup
    set
resolve-host = refl

stop-host : run_lifecycle stop host [] ≡ (ok tt, "store" ∷ "queue" ∷ [])
unfolding run_lifecycle register_all create_plugin_host register resolve_plugin_order trim lookup
    set
stop-host = refl

self_dependent :
    validate_manifest {R = Unit {0}}
      (raw_object (id_text "a") (deps_array (item_text " a" ∷ [])) tt)
    ≡ err (invalid_manifest dependencies_field (some "a") self_dependency)
unfolding validate_manifest trim
self_dependent = refl

validated :
    validate_manifest {R = Unit {0}}
      (raw_object (id_text " a") (deps_array (item_text "b " ∷ item_text "c" ∷ [])) tt)
    ≡ ok (record { id = "a"; dependencies = some ("b" ∷ "c" ∷ []); rest = tt })
unfolding validate_manifest trim
validated = refl

sound_manifest : IsKey "a" × AreDependencies "a" ("b" ∷ "c" ∷ [])
sound_manifest =
    validate_manifest-ok
      (raw_object (id_text " a") (deps_array (item_text "b " ∷ item_text "c" ∷ [])) tt)
      (record { id = "a"; dependencies = some ("b" ∷ "c" ∷ []); rest = tt }) validated

empty_host-IsValid :
    IsValid (create_plugin_host {R = Unit {0}} {L = Lifecycle (List String) (Unit {0})})
unfolding create_plugin_host
empty_host-IsValid = record { keyed = refl; distinct = tt; paired = refl; checked = tt }

register-Registered_example :
    Registered host
      (raw "web" "web" (some "store"))
      (register (raw "web" "web" (some "store")) host)
register-Registered_example =
    register-Registered host (raw "web" "web" (some "store"))
      (register_all-IsValid create_plugin_host raws empty_host-IsValid)

host_order : Outcome (list host) (resolve_order host)
host_order = resolve_order-Outcome raws

run_lifecycle_order_example :
    Ran setup host_plan [] (run_lifecycle setup host [])
    × Ran start host_plan [] (run_lifecycle start host [])
    × Ran stop (reverse host_plan) [] (run_lifecycle stop host [])
    × IsOrdered [] host_plan
    × IsReversed [] (reverse host_plan)
run_lifecycle_order_example = run_lifecycle_order host host_plan [] resolve-host

web_app_in_two_rows :
    run_hooks start web_app []
    ≡ (run_hooks start (plugin "web" ("queue" ∷ "store" ∷ []) ∷ [])
          >> run_hooks start (plugin "queue" ("store" ∷ []) ∷ plugin "store" [] ∷ []))
        []
web_app_in_two_rows =
    run_hooks-append start (plugin "web" ("queue" ∷ "store" ∷ []) ∷ [])
      (plugin "queue" ("store" ∷ []) ∷ plugin "store" [] ∷ []) []
