-- ===== src/PluginHost.antt =====
-- packages/core/src/plugin-host: types.ts and errors.ts are in PluginHost/Types, the dependency order
-- of dependency-order.ts in PluginHost/Order and its cycle search in PluginHost/Cycle. This file is
-- `createPluginHost` of plugin-host.ts. A hook may throw (`X`) and change what it can reach (`W`).
pub mod Types
pub mod Walks
pub mod Cycle
pub mod Order
pub mod Laws
pub mod Registration
pub mod Lifecycle
use generic_ai.Base.{String, Option, none, some, List, [], ◌∷◌, if◌then◌else◌, reverse}
use generic_ai.Base.Text.{is_empty}
use generic_ai.Base.Exec.{Result, ok, err, Exec, pure, ◌>>=◌, ◌>>◌, lift, gets, throw_if}
use generic_ai.Registry
use generic_ai.Registry.{Registry, RegistryError}
use generic_ai.PluginHost.Types.{
  Issue, duplicate_id, RawManifest, Manifest, Plugin, validate_manifest,
}
use generic_ai.PluginHost.Order.{resolve_plugin_order}

pub data Phase : Type 0 where
  setup start stop : Phase

-- `PluginLifecycle`: the optional hooks.
abbrev pub Lifecycle : Type 0 → Type 0 → Type 0
Lifecycle W X = Phase → Option (Exec W X (Unit {0}))

-- What `register` can throw: its own error, or that of a registry.
pub data HostError : Type 0 where
  plugin_host_error : List Issue → HostError
  registry_error : RegistryError → HostError

pub record Host (R L : Type 0) : Type 0 where
  pub plugins : Registry (Plugin R L)
  pub manifests : Registry (Manifest R)

-- The argument of `register`, before its manifest is checked.
pub record RawPlugin (R L : Type 0) : Type 0 where
  pub manifest : RawManifest R
  pub lifecycle : Option L

abbrev issue_of {ℓ} : {A : Type ℓ} → Result Issue A → Result HostError A
issue_of (ok a) = ok a
issue_of (err i) = err (plugin_host_error (i ∷ []))

abbrev registry_result {ℓ} : {A : Type ℓ} → Result RegistryError A → Result HostError A
registry_result (ok a) = ok a
registry_result (err e) = err (registry_error e)

module _ {R L : Type 0} where
  unfoldable pub create_plugin_host : Host R L
  unfolding Registry.create_registry
  create_plugin_host = record {
    plugins = Registry.create_registry "plugins";
    manifests = Registry.create_registry "manifests";
  }

  -- `plugins.register(…)` and `manifests.register(…)`, each on its own registry.
  abbrev register_plugin : String → Plugin R L → Exec (Host R L) HostError (Plugin R L)
  register_plugin id p h =
      let (r, plugins) = Registry.register id p h.plugins in
      (registry_result r, record h { plugins = plugins })

  abbrev register_manifest : String → Manifest R → Exec (Host R L) HostError (Manifest R)
  register_manifest id m h =
      let (r, manifests) = Registry.register id m h.manifests in
      (registry_result r, record h { manifests = manifests })

  unfoldable pub register : RawPlugin R L → Exec (Host R L) HostError (Plugin R L)
  unfolding validate_manifest Registry.has_key Registry.register
  register plugin = do
    manifest ← lift (issue_of (validate_manifest plugin.manifest))
    there ← (λ h. (registry_result (Registry.has_key manifest.id h.plugins), h))
    throw_if there (plugin_host_error (duplicate_id manifest.id ∷ []))
    _ ← register_plugin manifest.id (record { manifest = manifest; lifecycle = plugin.lifecycle })
    _ ← register_manifest manifest.id manifest
    pure (record { manifest = manifest; lifecycle = plugin.lifecycle })

  unfoldable pub list : Host R L → List (Plugin R L)
  unfolding Registry.value_list
  list h = Registry.value_list h.plugins

  unfoldable pub resolve_order : Host R L → Result (List Issue) (List (Plugin R L))
  unfolding list
  resolve_order h = resolve_plugin_order (list h)

  unfoldable pub validate : Host R L → List Issue
  unfolding resolve_order
  validate h = elim (resolve_order h) [ ok plan ↦ [] | err issues ↦ issues ]

-- What `runLifecycle` throws: the host's error, or what a hook throws.
pub data LifecycleError (X : Type 0) : Type 0 where
  order_error : List Issue → LifecycleError X
  hook_error : X → LifecycleError X

abbrev pub hook_result : {X : Type 0} → Result X (Unit {0}) → Result (LifecycleError X) (Unit {0})
hook_result (ok a) = ok a
hook_result (err e) = err (hook_error e)

abbrev pub run_hook :
    {W X : Type 0} → Option (Exec W X (Unit {0})) → Exec W (LifecycleError X) (Unit {0})
run_hook none w = (ok tt, w)
run_hook (some hook) w = let (r, w') = hook w in (hook_result r, w')

module _ {R W X : Type 0} where
  -- `plugin.lifecycle?.[phase]`
  abbrev pub hook_of : Phase → Plugin R (Lifecycle W X) → Option (Exec W X (Unit {0}))
  hook_of phase p = elim p.lifecycle [ none ↦ none | some hooks ↦ hooks phase ]

  unfoldable pub run_hooks :
      Phase → List (Plugin R (Lifecycle W X)) → Exec W (LifecycleError X) (Unit {0})
  run_hooks phase [] = pure tt
  run_hooks phase (p ∷ ps) = run_hook (hook_of phase p) >> run_hooks phase ps

  abbrev phase_order : Phase → List (Plugin R (Lifecycle W X)) → List (Plugin R (Lifecycle W X))
  phase_order stop plan = reverse plan
  phase_order _ plan = plan

  abbrev order_result :
      Phase
      → Result (List Issue) (List (Plugin R (Lifecycle W X)))
      → Exec W (LifecycleError X) (Unit {0})
  order_result phase (ok plan) w = run_hooks phase (phase_order phase plan) w
  order_result phase (err issues) w = (err (order_error issues), w)

  -- The order is fixed before the first hook runs, so a hook cannot change it.
  unfoldable pub run_lifecycle :
      Phase → Host R (Lifecycle W X) → Exec W (LifecycleError X) (Unit {0})
  unfolding run_hooks resolve_order
  run_lifecycle phase h = order_result phase (resolve_order h)
