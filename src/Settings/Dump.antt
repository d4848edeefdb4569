-- ===== src/Settings/Dump.antt =====
-- The dumps of the resolved settings (src/core/settings_dump.py). What pydantic's `model_dump` gives
-- for the sections of a config is a parameter, the record `Config`.
use finpipe.Base.{Bool, Option, none, some, List, [], ◌∷◌, String, if◌then◌else◌}
use finpipe.Json.{Json, null, str, arr, obj, Items, nil, cons, Fields, end, field, truthy, get, set}
use finpipe.Settings.Redact.{redact}

-- The dumped sections of a `FinpipeConfig`; `provider name` is that of `config.providers.name`.
pub record Config : Type 0 where
  pub dataframe_format : String
  pub cache : Json
  pub routing : Fields
  pub health : Json
  pub provider : String → Json

abbrev pub provider_names : List String
provider_names =
    "yahoo" ∷ "alpha_vantage" ∷ "fred" ∷ "massive" ∷ "tradingview" ∷ "screener" ∷ "sentiment"
    ∷ "groq" ∷ "gemini" ∷ "nvidia" ∷ []

pub record CapabilitySettings : Type 0 where
  pub name : String
  pub primary_routing_key : Option String
  pub fallback_routing_key : Option String
  pub providers : List String
  pub protocols : List String

abbrev pub capability_settings : List CapabilitySettings
capability_settings =
    record {
      name = "equity";
      primary_routing_key = some "equity_primary";
      fallback_routing_key = some "equity_fallback";
      providers = "yahoo" ∷ "alpha_vantage" ∷ [];
      protocols = "IHistoricalPriceProvider" ∷ "IMetadataProvider" ∷ [];
    }
    ∷ record {
      name = "options";
      primary_routing_key = some "options_primary";
      fallback_routing_key = some "options_fallback";
      providers = "massive" ∷ "yahoo" ∷ [];
      protocols = "IOptionsProvider" ∷ [];
    }
    ∷ record {
      name = "macro";
      primary_routing_key = none;
      fallback_routing_key = none;
      providers = "fred" ∷ [];
      protocols = "IMacroProvider" ∷ [];
    }
    ∷ record {
      name = "intel";
      primary_routing_key = none;
      fallback_routing_key = none;
      providers = "sentiment" ∷ [];
      protocols = "IMarketIntelProvider" ∷ [];
    }
    ∷ record {
      name = "screener";
      primary_routing_key = none;
      fallback_routing_key = none;
      providers = "screener" ∷ "tradingview" ∷ [];
      protocols = "IScreenerProvider" ∷ [];
    }
    ∷ record {
      name = "llm";
      primary_routing_key = some "llm_primary";
      fallback_routing_key = some "llm_fallback";
      providers = "groq" ∷ "gemini" ∷ "nvidia" ∷ [];
      protocols = "ILLMProvider" ∷ [];
    }
    ∷ []

-- the loop of `dump_provider_settings` over the names
unfoldable pub dump_providers : Config → Bool → List String → Fields → Fields
dump_providers config redact_secrets [] providers = providers
dump_providers config redact_secrets (name ∷ names) providers =
    dump_providers config redact_secrets names (
      set name (if redact_secrets then redact (config.provider name) else config.provider name)
        providers)

unfoldable pub dump_provider_settings : Config → Bool → Fields
unfolding dump_providers
dump_provider_settings config redact_secrets =
    dump_providers config redact_secrets provider_names end

abbrev pub strings : List String → Items
strings [] = nil
strings (s ∷ ss) = cons (str s) (strings ss)

-- `routing.get(key) if key else None`
abbrev pub routed : Fields → Option String → Json
routed routing none = null
routed routing (some key) = elim (get key routing) [ none ↦ null | some v ↦ v ]

-- `{name: provider_settings[name] for name in names if name in provider_settings}`
unfoldable pub select : List String → Fields → Fields → Fields
select [] settings out = out
select (name ∷ names) settings out =
    select names settings (elim (get name settings) [ none ↦ out | some v ↦ set name v out ])

unfoldable pub capability_entry : Fields → Fields → CapabilitySettings → Json
unfolding select
capability_entry routing settings c = obj (
    field "protocols" (arr (strings c.protocols)) (
      field "primary" (routed routing c.primary_routing_key) (
        field "fallback" (routed routing c.fallback_routing_key)
          (field "providers" (obj (select c.providers settings end)) end))))

unfoldable pub dump_capabilities : Fields → Fields → List CapabilitySettings → Fields → Fields
unfolding capability_entry
dump_capabilities routing settings [] out = out
dump_capabilities routing settings (c ∷ cs) out =
    dump_capabilities routing settings cs (set c.name (capability_entry routing settings c) out)

-- `providers or dump_provider_settings(config, redact_secrets=False)`
unfoldable pub given_or_dumped : Config → Option Fields → Fields
unfolding dump_provider_settings
given_or_dumped config none = dump_provider_settings config Bool.false
given_or_dumped config (some providers) =
    if truthy (obj providers) then providers else dump_provider_settings config Bool.false

unfoldable pub dump_capability_settings : Config → Option Fields → Fields
unfolding dump_capabilities given_or_dumped
dump_capability_settings config providers =
    dump_capabilities config.routing (given_or_dumped config providers) capability_settings end

unfoldable pub dump_settings : Config → Bool → Fields
unfolding dump_provider_settings dump_capability_settings
dump_settings config redact_secrets =
    let providers = dump_provider_settings config redact_secrets in
    field "dataframe_format" (str config.dataframe_format) (
      field "cache" config.cache (
        field "routing" (obj config.routing) (
          field "health" config.health (
            field "capabilities" (obj (dump_capability_settings config (some providers)))
              (field "providers" (obj providers) end)))))
