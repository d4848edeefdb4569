-- ===== src/Health/Selection.antt =====
-- Which probes `resolve_probe_keys` selects.
use finpipe.Base.{
  ◌≡◌, refl, inl, inr, Bool, true, not, ◌&&◌, Bool-cases, Option-cases, List, [], ◌∷◌, map, String,
  str_eq, eq_iff, Dict, lookup, contains, strip_prefix, strip_prefix-append, contains_subset,
  contains-map_append, contains_of_lookup, concat, arith,
}
use mathlib.Core.List.{append-nil}
use finpipe.Health.Registry.{
  Config, Providers, default_probe_keys, probe_enabled, intel_sources, screener_sources,
  is_intel_enabled, is_screener_enabled, is_screener_key_enabled, is_source_enabled,
  is_probe_provider_enabled, is_switched_off, default_keys, custom_keys, resolve_keys,
  resolve_probe_keys,
}

intel-default :
    (providers : Providers) (source : String)
    → is_intel_enabled providers source ≡ true
    → contains (concat "intel." source) default_probe_keys ≡ true
unfolding is_intel_enabled
intel-default providers source h = elim (Option-cases (lookup source intel_sources)) [
  | inl e ↦ absurd (ground arith)
  | inr (f, e) ↦
      contains_subset (concat "intel." source)
        (map (λ x. concat "intel." x) (map (λ e. e.0) intel_sources)) default_probe_keys refl
        (contains-map_append "intel." source (map (λ e. e.0) intel_sources)
          (contains_of_lookup source f intel_sources e))
]

screener-default :
    (providers : Providers) (source : String)
    → is_screener_enabled providers source ≡ true
    → contains (concat "screener." source) default_probe_keys ≡ true
unfolding is_screener_enabled
screener-default providers source h = elim (Option-cases (lookup source screener_sources)) [
  | inl e ↦ absurd (ground arith)
  | inr (f, e) ↦
      contains_subset (concat "screener." source)
        (map (λ x. concat "screener." x) (map (λ e. e.0) screener_sources)) default_probe_keys refl
        (contains-map_append "screener." source (map (λ e. e.0) screener_sources)
          (contains_of_lookup source f screener_sources e))
]

source-default :
    (providers : Providers) (key : String)
    → is_source_enabled providers key ≡ true
    → contains key default_probe_keys ≡ true
unfolding is_source_enabled is_screener_key_enabled
source-default providers key h = elim (Option-cases (strip_prefix "intel." key)) [
  | inl e ↦ elim (Option-cases (strip_prefix "screener." key)) [
    | inl f ↦ absurd (ground arith)
    | inr (source, f) ↦
        rw (strip_prefix-append "screener." key f)
          (screener-default providers source (ground arith))
  ]
  | inr (source, e) ↦
      rw (strip_prefix-append "intel." key e) (intel-default providers source (ground arith))
]

-- A probe key whose provider is enabled is one of the default keys.
enabled-default :
    (config : Config) (key : String)
    → is_probe_provider_enabled config key ≡ true
    → contains key default_probe_keys ≡ true
unfolding is_probe_provider_enabled
enabled-default config key h = elim (Bool-cases (str_eq key "compression.huggingface")) [
  | inl e ↦ rw ((eq_iff key "compression.huggingface").0 e)
  | inr e ↦ elim (Option-cases (lookup key probe_enabled)) [
    | inl f ↦ source-default config.providers key (ground arith)
    | inr (g, f) ↦
        contains_subset key (map (λ e. e.0) probe_enabled) default_probe_keys refl
          (contains_of_lookup key g probe_enabled f)
  ]
]

custom_keys-empty :
    (config : Config) (defaults : List String) (probes : Dict Bool)
    → ((key : String) → is_probe_provider_enabled config key ≡ true → contains key defaults ≡ true)
    → custom_keys config defaults probes ≡ []
unfolding custom_keys
custom_keys-empty config defaults [] all_default = refl
custom_keys-empty config defaults ((key, enabled) ∷ probes) all_default =
    ground (arith, custom_keys-empty config defaults probes all_default, all_default key)

-- What the loop over the default keys selects.
abbrev pub is_selected : Config → String → Bool
is_selected config key =
    not (is_switched_off config.health key) && is_probe_provider_enabled config key

contains-default_keys :
    (config : Config) (key : String) (keys : List String)
    → contains key (default_keys config keys) ≡ (contains key keys && is_selected config key)
unfolding default_keys
contains-default_keys config key [] = refl
contains-default_keys config key (k ∷ keys) = elim (Bool-cases (str_eq k key)) [
  | inl e ↦
      rw ((eq_iff k key).0 e)
        (ground (arith, eq_iff key key, contains-default_keys config key keys))
  | inr e ↦ ground (arith, contains-default_keys config key keys)
]

contains-resolve_keys :
    (config : Config) (defaults : List String) (key : String)
    → ((k : String) → is_probe_provider_enabled config k ≡ true → contains k defaults ≡ true)
    → contains key (resolve_keys config defaults)
      ≡ (config.health.enabled && contains key defaults && is_selected config key)
unfolding resolve_keys
contains-resolve_keys config defaults key all_default = ground (
  arith,
  append-nil (default_keys config defaults),
  custom_keys-empty config defaults config.health.probes all_default,
  contains-default_keys config key defaults,
)

-- A default key is selected exactly when `health.enabled` is set, its provider is enabled, and
-- `health.probes` does not switch it off. No other key is selected, whatever `health.probes` says of
-- it: the loop over custom probes never adds one. So `health.probes` only switches off: a key that it does
-- not list is selected like the others.
pub contains-resolve_probe_keys :
    (config : Config) (key : String)
    → contains key (resolve_probe_keys config)
      ≡ (config.health.enabled && contains key default_probe_keys && is_selected config key)
unfolding resolve_probe_keys
contains-resolve_probe_keys config key =
    contains-resolve_keys config default_probe_keys key (enabled-default config)
