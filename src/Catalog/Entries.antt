-- ===== src/Catalog/Entries.antt =====
-- The rows of the catalog (src/catalog/models.py).
use finpipe.Base.{Bool, Option, List, String}

pub data CapabilityName : Type 0 where
  equity options macro intel screener llm : CapabilityName

pub record CapabilityCatalogEntry : Type 0 where
  pub capability : CapabilityName
  pub label : String
  pub description : String
  pub client_facade : String
  pub protocols : List String
  pub primary_routing_key : Option String
  pub fallback_routing_key : Option String

pub record ProviderCatalogEntry : Type 0 where
  pub provider_id : String
  pub capability : CapabilityName
  pub label : String
  pub description : String
  pub returns : String
  pub settings_path : String
  pub api_surface : String
  pub adapter_key : String
  pub health_probe_key : Option String

pub record HealthProbeCatalogEntry : Type 0 where
  pub key : String
  pub capability : CapabilityName
  pub provider_id : String
  pub label : String
  pub description : String
  pub returns : String
  pub probe_action : String
  pub settings_path : String

-- `HealthProbeCatalogEntryResolved`: the row, whose fields the source copies, and what the configuration
-- says of it.
pub record HealthProbeCatalogEntryResolved : Type 0 where
  pub entry : HealthProbeCatalogEntry
  pub provider_enabled : Bool
  pub configured_in_health : Bool
  pub would_run : Bool
