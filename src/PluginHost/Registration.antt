-- ===== src/PluginHost/Registration.antt =====
-- plugin-host.ts: what `register` keeps and changes, and the order of a host's plugins.
use generic_ai.Base.{
  String, ◌≡◌, refl, sym, ◌∙◌, ap, true, false, List, [], ◌∷◌, ◌++◌, arith, All, All-append,
  Distinct, Distinct-snoc, Bool-cases, inl, inr, contains, subst,
}
use generic_ai.Base.Dict.{Dict, has, set, keys, values, set_new, contains-keys}
use generic_ai.Base.Exec.{Result, ok, err, Result-cases}
use generic_ai.Registry
use generic_ai.Registry.{Registry}
use generic_ai.Registry.Laws.{IsKey}
use generic_ai.PluginHost.Types.{
  Issue, duplicate_id, Manifest, Plugin, id_of, deps_of, ids, validate_manifest,
}
use generic_ai.PluginHost.{
  Host, HostError, plugin_host_error, RawPlugin, register, list, create_plugin_host, resolve_order,
}
use generic_ai.PluginHost.Order.Cyclic.{Outcome, resolve-Outcome}
use generic_ai.PluginHost.Laws.{AreDependencies, validate_manifest-ok}

module _ {T : Type 0} where
  has_key-IsKey : (k : String) (r : Registry T) → IsKey k → Registry.has_key k r ≡ ok (has k r.map)
  unfolding Registry.has_key
  has_key-IsKey k r h = ground (arith, ap (λ t. has t r.map) h.0)

  register-IsKey :
      (k : String) (v : T) (r : Registry T)
      → IsKey k
      → has k r.map ≡ false
      → Registry.register k v r ≡ (ok v, record r { map = r.map ++ (k, v) ∷ [] })
  unfolding Registry.register
  register-IsKey k v r h new =
      ground
        (arith, h.0, set_new k v r.map new, ap (λ t. has t r.map) h.0, ap (λ t. set t v r.map) h.0)

  keys-append : (m n : Dict T) → keys (m ++ n) ≡ keys m ++ keys n
  keys-append [] n = refl
  keys-append ((k, v) ∷ m) n = ap (◌∷◌ k) (keys-append m n)

  values-append : (m n : Dict T) → values (m ++ n) ≡ values m ++ values n
  values-append [] n = refl
  values-append ((k, v) ∷ m) n = ap (◌∷◌ v) (values-append m n)

module _ {R L : Type 0} where
  -- A plugin whose manifest has passed the checks.
  abbrev pub IsChecked : Plugin R L → Type 0
  IsChecked p = IsKey (id_of p) × AreDependencies (id_of p) (deps_of p)

  pub record IsValid (h : Host R L) : Type 0 where
    pub keyed : ids (values h.plugins.map) ≡ keys h.plugins.map
    pub distinct : Distinct (keys h.plugins.map)
    pub paired : keys h.manifests.map ≡ keys h.plugins.map
    pub checked : All IsChecked (values h.plugins.map)

  ids-snoc : (ps : List (Plugin R L)) (p : Plugin R L) → ids (ps ++ p ∷ []) ≡ ids ps ++ id_of p ∷ []
  ids-snoc [] p = refl
  ids-snoc (q ∷ ps) p = ap (◌∷◌ (id_of q)) (ids-snoc ps p)

  -- The host with one more plugin, in both of its registries.
  abbrev with_plugin : Host R L → Plugin R L → Host R L
  with_plugin h p = record {
    plugins = record h.plugins { map = h.plugins.map ++ (id_of p, p) ∷ [] };
    manifests = record h.manifests { map = h.manifests.map ++ (id_of p, p.manifest) ∷ [] };
  }

  with_plugin-IsValid :
      (h : Host R L) (p : Plugin R L)
      → IsValid h
      → IsChecked p
      → has (id_of p) h.plugins.map ≡ false
      → IsValid (with_plugin h p)
  with_plugin-IsValid h p v c new = record {
    keyed = rw (values-append h.plugins.map, keys-append h.plugins.map, ids-snoc, v.keyed);
    distinct =
        rw (keys-append h.plugins.map)
          (Distinct-snoc _ (id_of p) v.distinct (contains-keys (id_of p) h.plugins.map ∙ new));
    paired = rw (keys-append h.plugins.map, keys-append h.manifests.map, v.paired);
    checked =
        rw (values-append h.plugins.map)
          (All-append IsChecked (values h.plugins.map) (p ∷ []) v.checked (c, tt));
  }

  -- The outcomes of `register`.
  pub data Registered (h : Host R L) (raw : RawPlugin R L)
      : Result HostError (Plugin R L) × Host R L → Type 0 where
    refused :
        (i : Issue)
        → validate_manifest raw.manifest ≡ err i
        → Registered h raw (err (plugin_host_error (i ∷ [])), h)
    duplicate :
        (m : Manifest R)
        → validate_manifest raw.manifest ≡ ok m
        → has m.id h.plugins.map ≡ true
        → Registered h raw (err (plugin_host_error (duplicate_id m.id ∷ [])), h)
    added :
        (p : Plugin R L) (h' : Host R L)
        → validate_manifest raw.manifest ≡ ok p.manifest
        → has (id_of p) h.plugins.map ≡ false
        → list h' ≡ list h ++ p ∷ []
        → IsValid h'
        → Registered h raw (ok p, h')

  -- `register` either throws the issue of the manifest check, or throws that the id is taken, and
  -- changes nothing then; or it adds the plugin with its normalised manifest behind the others.
  -- The host stays valid: ids are trimmed and pairwise distinct, every dependency list is checked,
  -- and the two registries have the same keys, so that no registry ever throws.
  pub register-Registered :
      (h : Host R L) (raw : RawPlugin R L) → IsValid h → Registered h raw (register raw h)
  unfolding register list Registry.value_list
  register-Registered h raw v = elim (Result-cases (validate_manifest raw.manifest)) [
    | inr (i, bad) ↦ rw (bad, register) (refused i bad)
    | inl (m, good) ↦
        let (key, deps) = validate_manifest-ok raw.manifest m good in
        elim (Bool-cases (has m.id h.plugins.map)) [
          | inl there ↦
              rw (good, register, has_key-IsKey m.id h.plugins key, there) (duplicate m good there)
          | inr new ↦
              let p : Plugin R L = record { manifest = m; lifecycle = raw.lifecycle } in
              let new' =
                sym (contains-keys m.id h.manifests.map)
                ∙ ap (λ t. contains t m.id) v.paired
                ∙ contains-keys m.id h.plugins.map
                ∙ new in
              rw
                (
                  good,
                  register,
                  has_key-IsKey m.id h.plugins key,
                  new,
                  register-IsKey m.id p h.plugins key new,
                  register-IsKey m.id m h.manifests key new',
                )
                (added p (with_plugin h p) good new (values-append h.plugins.map _)
                  (with_plugin-IsValid h p v (key, deps) new))
        ]
  ]

  create-IsValid : IsValid (create_plugin_host {R = R} {L = L})
  unfolding create_plugin_host
  create-IsValid = record { keyed = refl; distinct = tt; paired = refl; checked = tt }

  unfoldable pub register_all : Host R L → List (RawPlugin R L) → Host R L
  register_all h [] = h
  register_all h (raw ∷ raws) = register_all (register raw h).1 raws

  register-IsValid : (h : Host R L) (raw : RawPlugin R L) → IsValid h → IsValid (register raw h).1
  register-IsValid h raw v = go (register raw h) (register-Registered h raw v)
    where
      go : (r : Result HostError (Plugin R L) × Host R L) → Registered h raw r → IsValid r.1
      go _ (refused i e) = v
      go _ (duplicate m e t) = v
      go _ (added p h' e n l w) = w

  pub register_all-IsValid :
      (h : Host R L) (raws : List (RawPlugin R L)) → IsValid h → IsValid (register_all h raws)
  unfolding register_all
  register_all-IsValid h [] v = v
  register_all-IsValid h (raw ∷ raws) v =
      register_all-IsValid (register raw h).1 raws (register-IsValid h raw v)

  list-Distinct : (h : Host R L) → IsValid h → Distinct (ids (list h))
  unfolding list Registry.value_list
  list-Distinct h v = subst Distinct (sym v.keyed) v.distinct

  -- Whatever is registered, failed calls included, `resolveOrder` of the host has the three outcomes
  -- of the dependency order: missing dependencies, a real cycle, or a plan.
  pub resolve_order-Outcome :
      (raws : List (RawPlugin R L))
      → Outcome
          (list (register_all create_plugin_host raws))
          (resolve_order (register_all create_plugin_host raws))
  unfolding resolve_order
  resolve_order-Outcome raws =
      let h = register_all create_plugin_host raws in
      let v = register_all-IsValid create_plugin_host raws create-IsValid in
      resolve-Outcome (list h) (list-Distinct h v)
