-- ===== src/Health/Service.antt =====
-- src/health/service.py and src/health/api.py, for a client with its registry of providers.
use finpipe.Base.{
  not, Option, none, some, List, [], ◌∷◌, map, String, concat, Dict, lookup, contains,
  if◌then◌else◌,
}
use finpipe.Errors.{config_error, value_error, Result, ok, raise}
use finpipe.Health.Registry.{Config, resolve_probe_keys}
use finpipe.Health.Models.{
  connected, degraded, unconfigured, error, disabled, skipped, ProbeResult, collect,
}
use finpipe.Health.Probes.{
  Provider, Runner, provider, compression, probe_runners, universal_probe_runner, probe_compression,
  message_of,
}

-- `registry` is what the adapters of the client answer to a probe, `endpoint_url` the configured one of
-- the prompt compression and `compressed` what it makes of the test sentence.
pub record Client : Type 0 where
  pub config : Config
  pub registry : Dict Provider
  pub endpoint_url : Option String
  pub compressed : Result String

unfoldable pub run : Client → Runner → Result (Option String)
run client (provider provider_id) = universal_probe_runner client.registry provider_id
run client compression = probe_compression client.endpoint_url client.compressed

-- `_run_probe`
unfoldable pub run_probe : Client → String → Result (Option String)
unfolding run
run_probe client probe_key = elim (lookup probe_key probe_runners) [
  | none ↦ raise (value_error (concat "Unknown health probe key: " probe_key))
  | some runner ↦ run client runner
]

-- the status of a probe that ran, and its message
abbrev pub outcome : String → Result (Option String) → ProbeResult
outcome key (ok none) = record { key = key; status = connected; message = none }
outcome key (ok (some m)) = record { key = key; status = degraded; message = some m }
outcome key (raise (config_error m)) = record { key = key; status = unconfigured; message = some m }
outcome key (raise e) = record { key = key; status = error; message = some (message_of e) }

-- `check` and `ping_probe`
unfoldable pub check : Client → String → ProbeResult
check client key =
    if not client.config.health.enabled
    then record { key = key; status = disabled; message = some "health.enabled is false" }
    else (if not (contains key (resolve_probe_keys client.config))
        then record {
          key = key;
          status = skipped;
          message = some "probe not configured or provider disabled";
        }
        else outcome key (run_probe client key))

-- `check_all` and `ping`
unfoldable pub check_all : Client → Dict ProbeResult
check_all client = elim (resolve_probe_keys client.config) [
  | [] ↦ []
  | key ∷ keys ↦ collect (map (check client) (key ∷ keys)) []
]

-- `run_health_check`, with the probes to run where they are given
unfoldable pub run_health_check : Client → Option (List String) → Dict ProbeResult
unfolding check_all
run_health_check client none = check_all client
run_health_check client (some keys) = collect (map (check client) keys) []
