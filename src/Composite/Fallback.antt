-- ===== src/Composite/Fallback.antt =====
-- Which provider answers a routed call (src/providers/composite/__init__.py).
use finpipe.Base.{
  concat, ◌≡◌, refl, ap, ◌⊎◌, inl, inr, ◌≢◌, Bool-cases, Option, none, some, List, [], ◌∷◌, String,
  str_eq, eq_iff, Dict, arith,
}
use finpipe.Errors.{Exn, provider_down, ok, raise}
use finpipe.Composite.{ordered_provider_names, Adapter, find_method}

module _ {A : Type 0} (adapters : Dict (Adapter A)) (method : String) where
  -- A provider that does not answer: it is not there, has no such method, or raises.
  abbrev pub Fails : String → Type 0
  Fails name =
      (find_method adapters method name ≡ none)
      ⊎ ((e : Exn) × (find_method adapters method name ≡ some (raise e)))

  -- The providers before an answer all fail, in order.
  pub data Answers (result : A) : List String → Type 0 where
    now :
        (name : String) (names : List String)
        → find_method adapters method name ≡ some (ok result)
        → Answers result (name ∷ names)
    later :
        (name : String) (names : List String)
        → Fails name
        → Answers result names
        → Answers result (name ∷ names)

  -- What the loop raises where nobody answers: the exception of the last provider that raised.
  pub last_raised : List String → Option Exn → Option Exn
  last_raised [] last = last
  last_raised (name ∷ names) last = last_raised names (elim (find_method adapters method name) [
    | none ↦ last
    | some (ok _) ↦ last
    | some (raise e) ↦ some e
  ])

  -- the exception that is left: the last one, or that no provider succeeded
  abbrev pub left_over : Option Exn → Exn
  left_over (some e) = e
  left_over none = provider_down (concat "No provider succeeded for " method)

-- The route of a capability: its primary, and behind it a fallback that is set and is another one. So
-- no provider is called twice.
ordered_provider_names_split :
    (primary : String) (fallback : Option String)
    → ((ordered_provider_names primary fallback ≡ primary ∷ [])
        × ((fallback ≡ none) ⊎ (fallback ≡ some "") ⊎ (fallback ≡ some primary)))
      ⊎ ((f : String) × (fallback ≡ some f)
          × (f ≢ primary)
          × (ordered_provider_names primary fallback ≡ primary ∷ f ∷ []))
unfolding ordered_provider_names
ordered_provider_names_split primary none = inl (refl, inl refl)
ordered_provider_names_split primary (some f) = elim (Bool-cases (str_eq f "")) [
  | inl e ↦ inl (rw e, inr (inl (ap some ((eq_iff f "").0 e))))
  | inr e ↦ elim (Bool-cases (str_eq f primary)) [
    | inl g ↦ inl (rw (e, g), inr (inr (ap some ((eq_iff f primary).0 g))))
    | inr g ↦ inr (f, refl, (λ same. ground (arith, (eq_iff f primary).1 same)), rw (e, g))
  ]
]
