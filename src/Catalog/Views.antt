-- ===== src/Catalog/Views.antt =====
-- The `to_dict` views of the catalog's rows (src/catalog/models.py), and the rows that merge an entry with the
-- settings.
use finpipe.Base.{ℕ, Bool, false, Option, none, some, List, [], ◌∷◌, String, length}
use finpipe.Json.{Json, null, bool, num, str, arr, Items, nil, cons, Fields, end, field}
use finpipe.Catalog.Entries.{
  CapabilityName, CapabilityCatalogEntry, ProviderCatalogEntry, HealthProbeCatalogEntry,
  HealthProbeCatalogEntryResolved,
}
use finpipe.Catalog.Handles.{capability_text}

abbrev pub texts : List String → Items
texts [] = nil
texts (s ∷ ss) = cons (str s) (texts ss)

-- `if value is not None: payload[key] = value`, behind the other keys
abbrev pub if_given : String → Option String → Fields → Fields
if_given key none rest = rest
if_given key (some value) rest = field key (str value) rest

abbrev pub count : ℕ → Json
count n = num (record { negative = false; digits = n; scale = 0 })

-- a Boolean or None
abbrev pub flag : Option Bool → Json
flag none = null
flag (some b) = bool b

abbrev pub name_of : CapabilityName → Json
name_of capability = str (capability_text capability)

-- the keys that both rows of a capability begin with
abbrev pub capability_head : CapabilityCatalogEntry → Fields → Fields
capability_head e rest = field "capability" (name_of e.capability) (
    field "label" (str e.label) (
      field "description" (str e.description) (
        field "client_facade" (str e.client_facade)
          (field "protocols" (arr (texts e.protocols)) rest))))

unfoldable pub capability_to_dict : CapabilityCatalogEntry → Fields
capability_to_dict e = capability_head e (
    if_given "primary_routing_key" e.primary_routing_key
      (if_given "fallback_routing_key" e.fallback_routing_key end))

-- The fields of the entry are copied, and the providers counted.
pub record CapabilityCatalogEntryResolved : Type 0 where
  pub entry : CapabilityCatalogEntry
  pub primary_provider : Option String
  pub fallback_provider : Option String
  pub provider_ids : List String
  pub provider_count : ℕ
  pub client_adapters : List String

unfoldable pub capability_from_entry :
    CapabilityCatalogEntry
    → Option String
    → Option String
    → List String
    → List String
    → CapabilityCatalogEntryResolved
capability_from_entry entry primary_provider fallback_provider provider_ids client_adapters =
    record {
      entry = entry;
      primary_provider = primary_provider;
      fallback_provider = fallback_provider;
      provider_ids = provider_ids;
      provider_count = length provider_ids;
      client_adapters = client_adapters;
    }

unfoldable pub resolved_capability_to_dict : CapabilityCatalogEntryResolved → Fields
resolved_capability_to_dict r = capability_head r.entry (
    field "provider_ids" (arr (texts r.provider_ids)) (
      field "provider_count" (count r.provider_count) (
        field "client_adapters" (arr (texts r.client_adapters)) (
          if_given "primary_routing_key" r.entry.primary_routing_key (
            if_given "fallback_routing_key" r.entry.fallback_routing_key (
              if_given "primary_provider" r.primary_provider
                (if_given "fallback_provider" r.fallback_provider end)))))))

abbrev pub provider_head : ProviderCatalogEntry → Fields → Fields
provider_head e rest = field "provider_id" (str e.provider_id) (
    field "capability" (name_of e.capability) (
      field "label" (str e.label) (
        field "description" (str e.description) (
          field "returns" (str e.returns) (
            field "settings_path" (str e.settings_path) (
              field "api_surface" (str e.api_surface)
                (field "adapter_key" (str e.adapter_key) rest)))))))

unfoldable pub provider_to_dict : ProviderCatalogEntry → Fields
provider_to_dict e = provider_head e (if_given "health_probe_key" e.health_probe_key end)

pub record ProviderCatalogEntryResolved : Type 0 where
  pub entry : ProviderCatalogEntry
  pub provider_enabled : Bool
  pub health_probe_enabled : Option Bool
  pub health_probe_would_run : Option Bool

unfoldable pub resolved_provider_to_dict : ProviderCatalogEntryResolved → Fields
resolved_provider_to_dict r = provider_head r.entry (
    field "provider_enabled" (bool r.provider_enabled) (
      field "health_probe_enabled" (flag r.health_probe_enabled) (
        field "health_probe_would_run" (flag r.health_probe_would_run)
          (if_given "health_probe_key" r.entry.health_probe_key end))))

abbrev pub probe_head : HealthProbeCatalogEntry → Fields → Fields
probe_head e rest = field "key" (str e.key) (
    field "capability" (name_of e.capability) (
      field "provider_id" (str e.provider_id) (
        field "label" (str e.label) (
          field "description" (str e.description) (
            field "returns" (str e.returns) (
              field "probe_action" (str e.probe_action)
                (field "settings_path" (str e.settings_path) rest)))))))

unfoldable pub probe_to_dict : HealthProbeCatalogEntry → Fields
probe_to_dict e = probe_head e end

unfoldable pub resolved_probe_to_dict : HealthProbeCatalogEntryResolved → Fields
resolved_probe_to_dict r = probe_head r.entry (
    field "provider_enabled" (bool r.provider_enabled) (
      field "configured_in_health" (bool r.configured_in_health)
        (field "would_run" (bool r.would_run) end)))
