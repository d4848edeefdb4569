-- ===== src/Composite.antt =====
-- src/providers/composite/__init__.py: routing of a call over the primary and the fallback provider.
pub mod Fallback
pub mod Methods
use finpipe.Base.{
  ◌≡◌, Bool, true, false, not, ◌&&◌, Option, none, some, List, [], ◌∷◌, ◌++◌, String, str_eq, Dict,
  lookup, concat, if◌then◌else◌,
}
use finpipe.Errors.{Exn, provider_down, Result, ok, raise}

-- `RoutingConfig` of src/core/config.py
pub record Routing : Type 0 where
  pub equity_primary : String
  pub equity_fallback : Option String
  pub options_primary : String
  pub options_fallback : Option String
  pub llm_primary : String
  pub llm_fallback : Option String

-- `ordered_provider_names`, for the two values that the keys name
unfoldable pub ordered_provider_names : String → Option String → List String
ordered_provider_names primary none = primary ∷ []
ordered_provider_names primary (some fallback) =
    if not (str_eq fallback "") && not (str_eq fallback primary)
    then primary ∷ fallback ∷ []
    else primary ∷ []

-- An adapter is its methods by name; a method is what its call comes to.
abbrev pub Adapter : Type 0 → Type 0
Adapter A = Dict (Result A)

module _ {A : Type 0} where
  -- `adapters.get(name)` with `getattr(adapter, method_name, None)`
  abbrev pub find_method : Dict (Adapter A) → String → String → Option (Result A)
  find_method adapters method name = elim (lookup name adapters) [
    | none ↦ none
    | some adapter ↦ lookup method adapter
  ]

  -- what is raised behind the loop
  abbrev pub give_up : String → Option Exn → Result A
  give_up method (some last_exc) = raise last_exc
  give_up method none = raise (provider_down (concat "No provider succeeded for " method))

  -- the loop over the names: the calls in order, the last exception at hand
  unfoldable pub try_providers : Dict (Adapter A) → String → List String → Option Exn → Result A
  try_providers adapters method [] last_exc = give_up method last_exc
  try_providers adapters method (name ∷ names) last_exc = elim (find_method adapters method name) [
    | none ↦ try_providers adapters method names last_exc
    | some (ok result) ↦ ok result
    | some (raise exc) ↦ try_providers adapters method names (some exc)
  ]

  unfoldable pub call_with_fallback : Dict (Adapter A) → List String → String → Result A
  call_with_fallback adapters names method = try_providers adapters method names none

  unfoldable pub resolve_first_adapter : Dict (Adapter A) → List String → Option (Adapter A)
  resolve_first_adapter adapters [] = none
  resolve_first_adapter adapters (name ∷ names) = elim (lookup name adapters) [
    | none ↦ resolve_first_adapter adapters names
    | some adapter ↦ some adapter
  ]

-- A composite service is its adapters and the route that its constructor computed.
pub record Service (A : Type 0) : Type 0 where
  pub adapters : Dict (Adapter A)
  pub route : List String

module _ {A : Type 0} where
  -- `CompositeOptionsService.__init__`, and the options part of `CompositeEquityService.__init__`
  unfoldable pub options_service : Routing → Dict (Adapter A) → Service A
  unfolding ordered_provider_names
  options_service routing adapters = record {
    adapters = adapters;
    route = ordered_provider_names routing.options_primary routing.options_fallback;
  }

  unfoldable pub equity_service : Routing → Dict (Adapter A) → Service A
  unfolding ordered_provider_names
  equity_service routing adapters = record {
    adapters = adapters;
    route = ordered_provider_names routing.equity_primary routing.equity_fallback;
  }

  -- the methods of the services: each routes the call of its own name
  unfoldable pub routed_call : Service A → String → Result A
  unfolding call_with_fallback
  routed_call service method = call_with_fallback service.adapters service.route method

  -- `CompositeEquityService.get_options_chain`
  unfoldable pub get_options_chain : Service A → Option (Service A) → Result A
  get_options_chain equity none = routed_call equity "get_options_chain"
  get_options_chain equity (some options) = routed_call options "get_options_chain"
