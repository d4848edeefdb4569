-- ===== src/Catalog/Service.antt =====
-- `CatalogService` of src/catalog/service.py.
use finpipe.Base.{
  Bool, true, false, none, some, List, [], ◌∷◌, map, String, Dict, lookup, insert, contains,
}
use finpipe.Errors.{Result, ok, ◌>>=◌}
use finpipe.Health.Registry.{Config, is_probe_provider_enabled, resolve_probe_keys}
use finpipe.Catalog.Entries.{
  ProviderCatalogEntry, HealthProbeCatalogEntry, HealthProbeCatalogEntryResolved,
}
use finpipe.Catalog.Probes.{probe_catalog}

-- `_provider_enabled`
unfoldable pub provider_enabled : Config → ProviderCatalogEntry → Bool
provider_enabled config entry = elim entry.health_probe_key [
  | none ↦ true
  | some probe_key ↦ is_probe_provider_enabled config probe_key
]

-- `configured_in_health` of a row
unfoldable pub is_configured : Config → String → Bool
is_configured config key = elim config.health.probes [
  | [] ↦ is_probe_provider_enabled config key
  | probe ∷ probes ↦ elim (lookup key (probe ∷ probes)) [ none ↦ false | some enabled ↦ enabled ]
]

unfoldable pub resolved : Config → HealthProbeCatalogEntry → HealthProbeCatalogEntryResolved
resolved config entry = record {
  entry = entry;
  provider_enabled = is_probe_provider_enabled config entry.key;
  configured_in_health = is_configured config entry.key;
  would_run = contains entry.key (resolve_probe_keys config);
}

unfoldable pub list_health_probes : Config → Result (List HealthProbeCatalogEntryResolved)
list_health_probes config = do catalog ← probe_catalog; ok (map (resolved config) catalog)

-- the comprehension of `health_config_template`: a key's value is the `enabled` of its block
unfoldable pub template_of : List HealthProbeCatalogEntryResolved → Dict Bool → Dict Bool
template_of [] d = d
template_of (probe ∷ probes) d = template_of probes (insert probe.entry.key probe.would_run d)

unfoldable pub health_config_template : Config → Result (Dict Bool)
health_config_template config = do probes ← list_health_probes config; ok (template_of probes [])
