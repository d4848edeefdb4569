-- ===== src/Catalog/Template.antt =====
-- The suggested `health.probes` block (src/catalog/service.py).
use finpipe.Base.{
  ◌≡◌, refl, sym, ◌∙◌, ap, Bool, true, false, not, ◌&&◌, Bool-cases, inl, inr, Option, none, some,
  List, [], ◌∷◌, map, String, str_eq, eq_iff, eq_refl, Dict, lookup, insert, lookup-insert,
  contains, arith, if◌then◌else◌,
}
use finpipe.Errors.{ok}
use finpipe.Health.Registry.{
  Config, default_probe_keys, is_probe_provider_enabled, is_switched_off, resolve_probe_keys,
}
use finpipe.Health.Selection.{contains-resolve_probe_keys, is_selected}
use finpipe.Catalog.Entries.{HealthProbeCatalogEntry}
use finpipe.Catalog.Probes.{probe_entry, probe_entries, probe_catalog}
use finpipe.Catalog.Service.{resolved, list_health_probes, template_of, health_config_template}

abbrev pub keys_of : List HealthProbeCatalogEntry → List String
keys_of catalog = map (λ entry. entry.key) catalog

lookup-template_of :
    (config : Config) (key : String) (catalog : List HealthProbeCatalogEntry) (d : Dict Bool)
    → lookup key (template_of (map (resolved config) catalog) d) ≡ (
        if contains key (keys_of catalog)
        then some (contains key (resolve_probe_keys config))
        else lookup key d)
unfolding template_of resolved
lookup-template_of config key [] d = refl
lookup-template_of config key (entry ∷ catalog) d = elim (Bool-cases (str_eq entry.key key)) [
  | inl e ↦
      rw
        (
          lookup-template_of config key catalog
              (insert entry.key (contains entry.key (resolve_probe_keys config)) d),
          lookup-insert entry.key key (contains entry.key (resolve_probe_keys config)) d,
          (eq_iff entry.key key).0 e,
          eq_refl,
        )
        (ground arith)
  | inr e ↦
      rw
        (
          lookup-template_of config key catalog
              (insert entry.key (contains entry.key (resolve_probe_keys config)) d),
          lookup-insert entry.key key (contains entry.key (resolve_probe_keys config)) d,
          e,
        )
        refl
]

-- The catalog is built without a missing action, and its keys are the default probes'.
catalog_keys :
    (catalog : List HealthProbeCatalogEntry) × (probe_catalog ≡ ok catalog)
    × ((key : String) → contains key default_probe_keys ≡ contains key (keys_of catalog))
unfolding probe_catalog probe_entries probe_entry
catalog_keys = (_, refl, λ key. ground arith)

-- `with_probes`: the configuration with other `health.probes`.
abbrev pub with_probes : Config → Dict Bool → Config
with_probes config probes = record config { health = record config.health { probes = probes } }

settled :
    (on default off provider_on : Bool) (toggle : Option Bool)
    → toggle ≡ (if default then some ((on && default) && (not off && provider_on)) else none)
    → ((on && default)
        && (not (elim toggle [ none ↦ false | some enabled ↦ not enabled ]) && provider_on))
      ≡ ((on && default) && (not off && provider_on))
settled on default off provider_on toggle h = ground arith

-- probes that say of each default key whether it is selected
reselected :
    (config : Config) (probes : Dict Bool) (key : String)
    → lookup key probes ≡ (
        if contains key default_probe_keys
        then some (contains key (resolve_probe_keys config))
        else none)
    → contains key (resolve_probe_keys (with_probes config probes))
      ≡ contains key (resolve_probe_keys config)
unfolding is_probe_provider_enabled
reselected config probes key h =
    contains-resolve_probe_keys (with_probes config probes) key
    ∙ settled config.health.enabled (contains key default_probe_keys)
        (is_switched_off config.health key) (is_probe_provider_enabled config key)
        (lookup key probes) (h ∙ as_selected (contains key default_probe_keys))
    ∙ sym (contains-resolve_probe_keys config key)
  where
    as_selected :
        (default : Bool)
        → (if default then some (contains key (resolve_probe_keys config)) else none) ≡ (
            if default
            then some (
                (config.health.enabled && contains key default_probe_keys)
                && is_selected config key)
            else none)
    as_selected true = ap some (contains-resolve_probe_keys config key)
    as_selected false = refl

-- The template is always built. To adopt it changes nothing: with the template as `health.probes`, the
-- same probes are selected as without.
pub template-selection :
    (config : Config)
    → (template : Dict Bool) × (health_config_template config ≡ ok template)
      × ((key : String)
          → contains key (resolve_probe_keys (with_probes config template))
            ≡ contains key (resolve_probe_keys config))
unfolding health_config_template list_health_probes is_probe_provider_enabled
template-selection config =
    let (catalog, built, same) = catalog_keys in
    (
      template_of (map (resolved config) catalog) [],
      rw built refl,
      λ key. reselected config _ key (rw (same key) (lookup-template_of config key catalog [])),
    )
