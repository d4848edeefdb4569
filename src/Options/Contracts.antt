-- ===== src/Options/Contracts.antt =====
-- Which contracts of a chain a snapshot has, said without the loops that make it (src/providers/yahoo.py,
-- src/providers/schwab.py).
use mathlib.Core.List.{append-nil}
use finpipe.Base.{
  ◌≡◌, refl, ◌∙◌, ap, Bool, true, Bool-cases, inl, inr, ◌&&◌, Option, none, some, List, [], ◌∷◌,
  ◌++◌, filter, map, take, String, str_eq, if◌then◌else◌,
}
use finpipe.Float.{Float}
use finpipe.Options.{
  OptionContract, OptionChain, Query, at_least, at_most, asks_for, sides_of, snapshot_row, filtered,
  snapshot_of,
}
use finpipe.Options.Snapshots.{wanted, snapshot_of-wanted}

module _ {F : Type 0} where
  -- the contracts of a side, if the type of contract that is asked for is none or is that side
  abbrev pub side : String → Option String → List (OptionContract F) → List (OptionContract F)
  side name none cs = cs
  side name (some contract_type) cs = if str_eq contract_type name then cs else []

module _ {F : Type 0} ⦃fl : Float F⦄ where
  -- no bound, or one that the strike is not below
  abbrev pub above : Option F → F → Bool
  above none strike = true
  above (some bound) strike = fl.leb bound strike

  -- no bound, or one that the strike is not above
  abbrev pub below : Option F → F → Bool
  below none strike = true
  below (some bound) strike = fl.leb strike bound

  abbrev pub within : Query F → OptionContract F → Bool
  within q c = above q.strike_price_gte c.strike && below q.strike_price_lte c.strike

  -- the calls within the bounds, and behind them the puts within the bounds
  abbrev pub asked_for : Query F → OptionChain F → List (OptionContract F)
  asked_for q chain =
      filter (within q) (side "call" q.contract_type chain.calls)
      ++ filter (within q) (side "put" q.contract_type chain.puts)

  at_least-above : (bound : Option F) (strike : F) → at_least bound strike ≡ above bound strike
  at_least-above none strike = refl
  at_least-above (some x) strike = refl

  at_most-below : (bound : Option F) (strike : F) → at_most bound strike ≡ below bound strike
  at_most-below none strike = refl
  at_most-below (some x) strike = refl

  filtered-within :
      (q : Query F) (cs : List (OptionContract F)) → filtered q cs ≡ filter (within q) cs
  unfolding filtered
  filtered-within q [] = refl
  filtered-within q (c ∷ cs) =
      let rest = filtered-within q cs in
      let lower = at_least-above q.strike_price_gte c.strike in
      let upper = at_most-below q.strike_price_lte c.strike in
      elim (Bool-cases (above q.strike_price_gte c.strike)) [
        | inl e ↦
            rw (lower, e)
              (elim (Bool-cases (below q.strike_price_lte c.strike)) [
                | inl f ↦ rw (upper, f) (ap (λ l. c ∷ l) rest)
                | inr f ↦ rw (upper, f) rest
              ])
        | inr e ↦ rw (lower, e) rest
      ]

  wanted-side :
      (q : Query F) (name : String) (contract_type : Option String) (cs : List (OptionContract F))
      (sides : List (List (OptionContract F)))
      → wanted q (if asks_for name contract_type then cs ∷ sides else sides)
        ≡ filter (within q) (side name contract_type cs) ++ wanted q sides
  wanted-side q name none cs sides = ap (λ l. l ++ wanted q sides) (filtered-within q cs)
  wanted-side q name (some contract_type) cs sides = elim (Bool-cases (str_eq contract_type name)) [
    | inl e ↦ rw e (ap (λ l. l ++ wanted q sides) (filtered-within q cs))
    | inr e ↦ rw e refl
  ]

  wanted-asked_for :
      (q : Query F) (chain : OptionChain F) → wanted q (sides_of q chain) ≡ asked_for q chain
  unfolding sides_of
  wanted-asked_for q chain =
      wanted-side q "call" q.contract_type chain.calls
        (if asks_for "put" q.contract_type then chain.puts ∷ [] else [])
      ∙ ap (λ l. filter (within q) (side "call" q.contract_type chain.calls) ++ l)
          (wanted-side q "put" q.contract_type chain.puts [] ∙ append-nil _)

  -- A snapshot has the rows of the first `limit` contracts that are asked for.
  pub snapshot_of-asked_for :
      (q : Query F) (chain : OptionChain F)
      → snapshot_of q chain
        ≡ map (snapshot_row chain.expiration_date) (take q.limit (asked_for q chain))
  snapshot_of-asked_for q chain =
      snapshot_of-wanted q chain
      ∙ ap (λ cs. map (snapshot_row chain.expiration_date) (take q.limit cs))
          (wanted-asked_for q chain)
