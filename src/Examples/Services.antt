-- ===== src/Examples/Services.antt =====
-- Runs of the fallback (src/providers/composite/__init__.py), the health probes (src/health) and the
-- catalog (src/catalog/service.py).
use finpipe.Base.{
  ◌≡◌, ℕ, Option, none, some, [], ◌∷◌, Bool, true, false, ◌&&◌, String, Dict, lookup, contains,
  if◌then◌else◌,
}
use finpipe.Errors.{data_not_found, ok, raise}
use finpipe.Composite.{Adapter}
use finpipe.Health.Registry.{Config, default_probe_keys, resolve_probe_keys}
use finpipe.Health.Selection.{is_selected, contains-resolve_probe_keys}
use finpipe.Health.Models.{ProbeResult, connected, degraded}
use finpipe.Health.Probes.{Provider}
use finpipe.Health.Service.{Client, check, check_all}
use finpipe.Health.Report.{lookup-check_all}
use finpipe.Catalog.Service.{health_config_template}
use finpipe.Catalog.Template.{with_probes, template-selection}

-- the primary raises, the fallback answers 7
abbrev adapters : Dict (Adapter ℕ)
adapters =
    ("yahoo", ("get_spot_price", raise (data_not_found "AAPL")) ∷ [])
    ∷ ("alpha_vantage", ("get_spot_price", ok 7) ∷ [])
    ∷ []

abbrev backup : Option String
backup = some "alpha_vantage"

-- everything enabled but Massive, and the probe of FRED switched off
abbrev config : Config
config = record {
  providers = record {
    yahoo = true;
    alpha_vantage = true;
    massive = false;
    fred = true;
    groq = true;
    gemini = true;
    nvidia = true;
    sentiment = true;
    intel_sources = record { google_news = true; stocktwits = true; reddit = false };
    screener = true;
    screener_sources = record {
      yahoo_trending = true;
      yahoo_predefined = true;
      finviz = true;
      tradingview = true;
    };
  };
  health = record {
    enabled = true;
    probe_symbol = "AAPL";
    probes = ("macro.fred", false) ∷ ("my.probe", true) ∷ [];
  };
  compression_enabled = false;
}

contains-resolve_probe_keys_example : contains "macro.fred" (resolve_probe_keys config) ≡ (
    config.health.enabled
    && contains "macro.fred" default_probe_keys
    && is_selected config "macro.fred")
contains-resolve_probe_keys_example = contains-resolve_probe_keys config "macro.fred"

-- a provider of macro series that answers an empty one
abbrev empty_fred : Provider
empty_fred = record {
  historical_empty = none;
  metadata = none;
  options = none;
  macro_empty = some (ok true);
  intel = none;
  screener = none;
  llm_empty = none;
}

abbrev registry : Dict Provider
registry = ("fred", empty_fred) ∷ []

abbrev results : Dict ProbeResult
results =
    ("macro.fred", record { key = "macro.fred"; status = degraded; message = some "empty" })
    ∷ ("llm.groq", record { key = "llm.groq"; status = connected; message = none })
    ∷ []

abbrev client : Client
client = record {
  config = config;
  registry = registry;
  endpoint_url = none;
  compressed = ok "text";
}

lookup-check_all_example : lookup "macro.fred" (check_all client) ≡ (
    if client.config.health.enabled
      && contains "macro.fred" default_probe_keys
      && is_selected client.config "macro.fred"
    then some (check client "macro.fred")
    else none)
lookup-check_all_example = lookup-check_all client "macro.fred"

template-selection_example :
    (template : Dict Bool) × (health_config_template config ≡ ok template)
    × ((key : String)
        → contains key (resolve_probe_keys (with_probes config template))
          ≡ contains key (resolve_probe_keys config))
template-selection_example = template-selection config
