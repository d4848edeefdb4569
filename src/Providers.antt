-- ===== src/Providers.antt =====
-- The registries of provider factories (src/core/registry.py).
use finpipe.Base.{
  ◌≡◌, refl, ◌&&◌, Option, none, some, List, [], ◌∷◌, map, String, str_eq, eq_iff, concat, Dict,
  lookup, insert, lookup-insert, arith, if◌then◌else◌,
}
use finpipe.Errors.{key_error, Result, ok, raise}

-- `ProviderRegistry`: a factory makes a provider from a context, or raises.
abbrev pub Registry : Type 0 → Type 0 → Type 0
Registry C T = Dict (C → Result T)

module _ {C T : Type 0} where
  unfoldable pub register : String → (C → Result T) → Registry C T → Registry C T
  register name factory factories = insert name factory factories

  unfoldable pub build : C → String → Registry C T → Result T
  build ctx name factories = elim (lookup name factories) [
    | none ↦ raise (key_error (concat "Provider not registered: " name))
    | some factory ↦ factory ctx
  ]

  unfoldable pub names : Registry C T → List String
  names factories = map (λ entry. entry.0) factories

  -- `_CATEGORY_REGISTRIES`, before any provider is registered
  abbrev pub category_registries : Dict (Registry C T)
  category_registries =
      ("equity", [])
      ∷ ("options", [])
      ∷ ("macro", [])
      ∷ ("intel", [])
      ∷ ("screener", [])
      ∷ ("llm", [])
      ∷ []

  unfoldable pub register_provider :
      String → String → (C → Result T) → Dict (Registry C T) → Result (Dict (Registry C T))
  register_provider name category factory registries = elim (lookup category registries) [
    | none ↦ raise (key_error category)
    | some registry ↦ ok (insert category (register name factory registry) registries)
  ]

  -- the factory that a category has for a name
  abbrev pub factory_of : String → String → Dict (Registry C T) → Option (C → Result T)
  factory_of category name registries = elim (lookup category registries) [
    | none ↦ none
    | some registry ↦ lookup name registry
  ]

  -- Registering a provider changes the factory of its own name in its own category and no other one.
  factory_of-register_provider :
      (name category j k : String) (factory : C → Result T)
      (registries registries' : Dict (Registry C T))
      → register_provider name category factory registries ≡ ok registries'
      → factory_of k j registries'
        ≡ (if str_eq category k && str_eq name j then some factory else factory_of k j registries)
  unfolding register_provider register
  factory_of-register_provider name category j k factory registries registries' h =
      registered (lookup category registries) refl h
    where
      registered :
          (o : Option (Registry C T))
          → lookup category registries ≡ o
          → (elim o [
            | none ↦ raise (key_error category)
            | some registry ↦ ok (insert category (insert name factory registry) registries)
          ])
            ≡ ok registries'
          → factory_of k j registries' ≡ (
              if str_eq category k && str_eq name j
              then some factory
              else factory_of k j registries)
      registered none e h = absurd (ground arith)
      registered (some registry) e h = ground (
        arith,
        eq_iff category k,
        lookup-insert category k (insert name factory registry) registries,
        lookup-insert name j factory registry,
      )
