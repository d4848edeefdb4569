-- ===== src/Catalog/Handles.antt =====
-- The handles of src/catalog/handles.py: the providers of a capability, the lookup of one, and the routing.
use finpipe.Base.{
  ◌≡◌, Bool, ◌&&◌, Bool-cases, inl, inr, Option, none, some, List, [], ◌∷◌, String, str_eq, concat,
  if◌then◌else◌, arith, Dict,
}
use finpipe.Errors.{Result, ok, raise, key_error, other_error, ◌>>=◌}
use finpipe.Json.{bool, str, Fields, end, field, set}
use finpipe.Text.{Unicode, is_empty, strip}
use finpipe.Composite.{Routing}
use finpipe.Health.Registry.{Config}
use finpipe.Catalog.Entries.{
  CapabilityName, equity, options, macro, intel, screener, llm, CapabilityCatalogEntry,
  ProviderCatalogEntry,
}
use finpipe.Catalog.Capabilities.{capability_catalog}
use finpipe.Catalog.Providers.{provider_catalog}
use finpipe.Catalog.Service.{provider_enabled}
use finpipe.Facade.Adapters.{Adapter, get_adapter}

-- the literals of `CapabilityName`
abbrev pub capability_text : CapabilityName → String
capability_text equity = "equity"
capability_text options = "options"
capability_text macro = "macro"
capability_text intel = "intel"
capability_text screener = "screener"
capability_text llm = "llm"

abbrev pub is_capability : CapabilityName → CapabilityName → Bool
is_capability a b = str_eq (capability_text a) (capability_text b)

-- `CatalogService.capability`, on the text that is given
unfoldable pub capability_of : Unicode → String → Result CapabilityName
capability_of u name =
    let normalized = u.lower (strip u name) in
    if str_eq normalized "equity"
    then ok equity
    else (if str_eq normalized "options"
        then ok options
        else (if str_eq normalized "macro"
            then ok macro
            else (if str_eq normalized "intel"
                then ok intel
                else (if str_eq normalized "screener"
                    then ok screener
                    else (if str_eq normalized "llm"
                        then ok llm
                        else raise (key_error (concat "Unknown capability " name)))))))

abbrev pub adapter_key_in : List ProviderCatalogEntry → CapabilityName → String → String
adapter_key_in [] capability provider_id = provider_id
adapter_key_in (entry ∷ entries) capability provider_id =
    if is_capability entry.capability capability && str_eq entry.provider_id provider_id
    then entry.adapter_key
    else adapter_key_in entries capability provider_id

unfoldable pub adapter_key_for : CapabilityName → String → String
adapter_key_for capability provider_id = adapter_key_in provider_catalog capability provider_id

pub record ProviderRef : Type 0 where
  pub entry : ProviderCatalogEntry
  pub enabled : Bool

-- `CatalogService._provider_refs_for`
unfoldable pub refs_in : Config → List ProviderCatalogEntry → CapabilityName → List ProviderRef
unfolding provider_enabled
refs_in config [] capability = []
refs_in config (entry ∷ entries) capability =
    let rest = refs_in config entries capability in
    if is_capability entry.capability capability
    then record { entry = entry; enabled = provider_enabled config entry } ∷ rest
    else rest

abbrev pub find_ref : List ProviderRef → String → String → Result ProviderRef
find_ref [] given normalized = raise (key_error (concat "Unknown provider " given))
find_ref (ref ∷ refs) given normalized =
    if str_eq ref.entry.provider_id normalized then ok ref else find_ref refs given normalized

-- `CapabilityHandle.provider`
unfoldable pub provider : Unicode → Config → CapabilityName → String → Result ProviderRef
unfolding refs_in
provider u config capability provider_id =
    find_ref (refs_in config provider_catalog capability) provider_id
      (u.lower (strip u provider_id))

-- `ProviderRef._adapter`
unfoldable pub adapter_of : Dict Adapter → ProviderRef → Result Adapter
unfolding get_adapter
adapter_of adapters ref = get_adapter adapters ref.entry.adapter_key

-- `ProviderRef.describe`, on what the adapter's `describe` gives, if it has that
unfoldable pub describe_ref : ProviderRef → Option Fields → Fields
describe_ref ref none = field "provider_id" (str ref.entry.provider_id) (
    field "capability" (str (capability_text ref.entry.capability))
      (field "enabled" (bool ref.enabled) end))
describe_ref ref (some payload) = set "enabled" (bool ref.enabled) (
    set "capability" (str (capability_text ref.entry.capability))
      (set "provider_id" (str ref.entry.provider_id) payload))

-- `routing.get(key)` of the dump of the routes
abbrev pub routing_value : Routing → String → Option String
routing_value r key =
    if str_eq key "equity_primary"
    then some r.equity_primary
    else (if str_eq key "equity_fallback"
        then r.equity_fallback
        else (if str_eq key "options_primary"
            then some r.options_primary
            else (if str_eq key "options_fallback"
                then r.options_fallback
                else (if str_eq key "llm_primary"
                    then some r.llm_primary
                    else (if str_eq key "llm_fallback" then r.llm_fallback else none)))))

-- the provider that a routing key, if there is one, names
abbrev pub routed_name : Routing → Option String → Option String
routed_name r none = none
routed_name r (some key) = if is_empty key then none else routing_value r key

-- `next(row for row in CAPABILITY_CATALOG if row.capability == self.id)`
abbrev pub entry_in : List CapabilityCatalogEntry → CapabilityName → Result CapabilityCatalogEntry
entry_in [] capability = raise (other_error "StopIteration")
entry_in (entry ∷ entries) capability =
    if is_capability entry.capability capability then ok entry else entry_in entries capability

pub record CapabilityRouting : Type 0 where
  pub primary : Option ProviderRef
  pub fallback : Option ProviderRef

module _ (u : Unicode) (config : Config) (r : Routing) (capability : CapabilityName) where
  abbrev pub optional_provider : Option String → Result (Option ProviderRef)
  optional_provider none = ok none
  optional_provider (some name) =
      if is_empty name
      then ok none
      else (provider u config capability name >>= (λ ref. ok (some ref)))

  -- the fallback that is another one than the primary
  abbrev pub other_name : Option String → Option String → Option String
  other_name primary none = none
  other_name none (some fallback) = some fallback
  other_name (some primary) (some fallback) =
      if str_eq fallback primary then none else some fallback

  unfoldable pub routing_of : CapabilityCatalogEntry → Result CapabilityRouting
  unfolding provider
  routing_of entry = do
    let primary_name = routed_name r entry.primary_routing_key
    primary ← optional_provider primary_name
    fallback ←
        optional_provider (other_name primary_name (routed_name r entry.fallback_routing_key))
    ok (record { primary = primary; fallback = fallback })

  -- `CapabilityHandle.routing`
  unfoldable pub routing : Result CapabilityRouting
  unfolding routing_of
  routing = entry_in capability_catalog capability >>= routing_of

find_ref-key :
    (config : Config) (entries : List ProviderCatalogEntry) (capability : CapabilityName)
    (given normalized : String) (ref : ProviderRef)
    → find_ref (refs_in config entries capability) given normalized ≡ ok ref
    → adapter_key_in entries capability normalized ≡ ref.entry.adapter_key
unfolding refs_in
find_ref-key config [] capability given normalized ref h = absurd (ground arith)
find_ref-key config (entry ∷ entries) capability given normalized ref h =
    elim (Bool-cases (is_capability entry.capability capability)) [
      | inr other ↦
          rw other (find_ref-key config entries capability given normalized ref (rw other at h))
      | inl same ↦ rw same (elim (Bool-cases (str_eq entry.provider_id normalized)) [
        | inl found ↦ rw found (
            let e : find_ref
                  (record { entry = entry; enabled = provider_enabled config entry }
                    ∷ refs_in config entries capability)
                  given normalized
                ≡ ok ref =
              rw same at h in
            let e' : Result.ok (record { entry = entry; enabled = provider_enabled config entry })
                ≡ ok ref =
              rw found at e in
            ground arith)
        | inr missed ↦ rw missed (
            let e : find_ref
                  (record { entry = entry; enabled = provider_enabled config entry }
                    ∷ refs_in config entries capability)
                  given normalized
                ≡ ok ref =
              rw same at h in
            find_ref-key config entries capability given normalized ref (rw missed at e))
      ])
    ]

-- The adapter of a provider that is looked up by name is the one that `adapter_key_for` gives for that name,
-- normalized.
provider-adapter_key_for :
    (u : Unicode) (config : Config) (capability : CapabilityName) (provider_id : String)
    (ref : ProviderRef)
    → provider u config capability provider_id ≡ ok ref
    → adapter_key_for capability (u.lower (strip u provider_id)) ≡ ref.entry.adapter_key
unfolding provider adapter_key_for
provider-adapter_key_for u config capability provider_id ref h =
    find_ref-key config provider_catalog capability provider_id (u.lower (strip u provider_id)) ref
      h
