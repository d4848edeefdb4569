-- ===== src/Yahoo/Chains.antt =====
-- The options of src/providers/yahoo.py: chains, snapshots and contracts. None of them asks the cache.
use Prim.Native.Char.{code}
use finpipe.Base.{
  ℕ, true, false, ◌&&◌, Option, none, some, List, [], ◌∷◌, ◌++◌, map, String, str_eq, ◌==◌, take,
  if◌then◌else◌,
}
use finpipe.Errors.{Result, ok, raise, ◌>>=◌}
use finpipe.Float.{Float}
use finpipe.Json.{Json, str, obj, end}
use finpipe.Json.Access.{get_or}
use finpipe.Text.{Unicode, strip}
use finpipe.Options.{Python, read_date, OptionChain, Query, snapshot_of, contracts_of}
use finpipe.Resilience.{Retries, Breaker}
use finpipe.Yahoo.Guarded.{is_any, Guard, execute_with_resilience}
use finpipe.Yahoo.Rows.{sanitize_symbol, Ticker, fetch_chain, read_chain}

-- What a call meets: the reading of the clock at which it acquires, and by symbol the tickers of its attempts.
pub record Meets (F : Type 0) : Type 0 where
  pub now : F
  pub tickers : String → List Ticker

-- a call that gave a result goes on with it
abbrev pub then_with :
    {A C G : Type 0}
    → (A → G → Option (Result C × G))
    → Option (Result A × G)
    → Option (Result C × G)
then_with next none = none
then_with next (some (raise e, g)) = some (raise e, g)
then_with next (some (ok a, g)) = next a g

abbrev pub with_result :
    {A C G : Type 0} → (A → Result C) → Option (Result A × G) → Option (Result C × G)
with_result f none = none
with_result f (some (r, g)) = some (r >>= f, g)

module _ {B F : Type 0} ⦃fl : Float F⦄ (br : Breaker B F) (py : Python F) {max_retries : ℕ}
    (retrying : Retries is_any max_retries) where
  unfoldable pub get_options_chain :
      String → Option String → Meets F → Guard B F → Option (Result (OptionChain F) × Guard B F)
  unfolding execute_with_resilience fetch_chain read_chain sanitize_symbol
  get_options_chain symbol expiration_date meets g =
      with_result (read_chain py symbol expiration_date) (
        execute_with_resilience br retrying meets.now
          (map (fetch_chain expiration_date) (meets.tickers (sanitize_symbol symbol))) g)

  abbrev pub snapshot_on :
      String
      → Query F
      → Meets F
      → Guard B F
      → Result (Option String)
      → Option (Result (List Json) × Guard B F)
  snapshot_on symbol q meets g (raise e) = some (raise e, g)
  snapshot_on symbol q meets g (ok expiration_date) =
      with_result (λ chain. ok (snapshot_of q chain))
        (get_options_chain symbol expiration_date meets g)

  unfoldable pub fetch_options_snapshot :
      String
      → Option String
      → Query F
      → Meets F
      → Guard B F
      → Option (Result (List Json) × Guard B F)
  unfolding get_options_chain snapshot_of
  fetch_options_snapshot symbol expiration_date q meets g =
      snapshot_on symbol q meets g (read_date py expiration_date)

  -- the loop of `fetch_options_contracts` over the expirations, each with what its call meets
  unfoldable pub contracts_on :
      String
      → List (String × Meets F)
      → List Json
      → Guard B F
      → Option (Result (List Json) × Guard B F)
  unfolding get_options_chain contracts_of
  contracts_on symbol [] contracts g = some (ok contracts, g)
  contracts_on symbol ((expiration, meets) ∷ rest) contracts g =
      elim (py.fromisoformat expiration) [
        | raise e ↦ some (raise e, g)
        | ok d ↦
            then_with
              (λ chain.
                contracts_on symbol rest (contracts ++ contracts_of py.number expiration chain))
              (get_options_chain symbol (some d) meets g)
      ]

  abbrev pub pair_up : List String → (String → Meets F) → List (String × Meets F)
  pair_up exps meets = map (λ e. (e, meets e)) exps

  -- `meets` is what the call for the expirations meets, `by_date` what the call of a chain does
  unfoldable pub fetch_options_contracts :
      String → Meets F → (String → Meets F) → Guard B F → Option (Result (List Json) × Guard B F)
  unfolding execute_with_resilience contracts_on sanitize_symbol
  fetch_options_contracts symbol meets by_date g =
      then_with (λ exps. contracts_on symbol (pair_up (take 6 exps) by_date) [])
        (execute_with_resilience br retrying meets.now
          (map (λ (t : Ticker). t.options) (meets.tickers (sanitize_symbol symbol))) g)

-- `s.replace("O:", "")`
unfoldable pub without_prefixes : String → String
without_prefixes String.[] = ""
without_prefixes (String.◌∷◌ c String.[]) = String.◌∷◌ c ""
without_prefixes (String.◌∷◌ c (String.◌∷◌ d s)) = elim (code c == 79 && code d == 58) [
  | true ↦ without_prefixes s
  | false ↦ String.◌∷◌ c (without_prefixes (String.◌∷◌ d s))
]

module _ (u : Unicode) where
  unfoldable pub normalized : String → String
  unfolding without_prefixes
  normalized contract = u.upper (strip u (without_prefixes contract))

  abbrev pub no_details : Json
  no_details = obj end

  module _ {F : Type 0} (py : Python F) where
    abbrev pub text_of : Json → String
    text_of (str s) = s
    text_of v = py.print v

    unfoldable pub ticker_of : Json → Result String
    unfolding normalized
    ticker_of snapshot = do
      details ← get_or "details" no_details snapshot
      ticker ← get_or "ticker" (str "") details
      ok (normalized (text_of ticker))

    -- the loop of `fetch_single_option_snapshot`
    unfoldable pub find_snapshot : String → List Json → Result Json
    unfolding ticker_of
    find_snapshot wanted [] = ok no_details
    find_snapshot wanted (snapshot ∷ rest) =
        let more = find_snapshot wanted rest in
        ticker_of snapshot >>= (λ ticker. if str_eq ticker wanted then ok snapshot else more)

abbrev pub whole_chain : {F : Type 0} → Query F
whole_chain = record {
  contract_type = none;
  strike_price_gte = none;
  strike_price_lte = none;
  limit = 1000;
}

module _ {B F : Type 0} ⦃fl : Float F⦄ (br : Breaker B F) (py : Python F) {max_retries : ℕ}
    (retrying : Retries is_any max_retries) where
  unfoldable pub fetch_single_option_snapshot :
      Unicode → String → String → Meets F → Guard B F → Option (Result Json × Guard B F)
  unfolding fetch_options_snapshot find_snapshot normalized
  fetch_single_option_snapshot u symbol contract meets g =
      with_result (find_snapshot u py (normalized u contract))
        (fetch_options_snapshot br py retrying symbol none whole_chain meets g)
