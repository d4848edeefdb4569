-- ===== src/Yahoo/Expiries.antt =====
-- Which expiration the option chains of src/providers/yahoo.py have.
use finpipe.Base.{
  ℕ, ◌≡◌, refl, ap, sym, ◌∙◌, true, false, Bool-cases, ◌⊎◌, inl, inr, Any, Any-map, Option, none,
  some, List, [], ◌∷◌, map, take, String, contains, arith,
}
use finpipe.Errors.{Result, ok, raise, ◌>>=◌}
use finpipe.Float.{Float}
use finpipe.Json.{Json}
use finpipe.Options.{Python, read_date, OptionChain, Query, snapshot_row, snapshot_of}
use finpipe.Options.Contracts.{asked_for, snapshot_of-asked_for}
use finpipe.Resilience.{Retries, Breaker}
use finpipe.Yahoo.Guarded.{is_any, Guard, execute_with_resilience}
use finpipe.Yahoo.Retried.{execute_ok}
use finpipe.Yahoo.Rows.{
  sanitize_symbol, Row, Ticker, parse_contracts, target_exp, chain_at, fetch_chain, empty_chain,
  read_chain,
}
use finpipe.Yahoo.Chains.{
  Meets, with_result, get_options_chain, snapshot_on, fetch_options_snapshot,
}

bind_ok :
    {A B : Type 0} (r : Result A) (f : A → Result B) (b : B)
    → r >>= f ≡ ok b
    → (a : A) × (r ≡ ok a) × (f a ≡ ok b)
bind_ok (ok a) f b h = (a, refl, h)
bind_ok (raise e) f b h = absurd (ground arith)

with_result_ok :
    {A C G : Type 0} (f : A → Result C) (p : Option (Result A × G)) (c : C) (g : G)
    → with_result f p ≡ some (ok c, g)
    → (a : A) × (p ≡ some (ok a, g)) × (f a ≡ ok c)
with_result_ok f none c g h = absurd (ground arith)
with_result_ok f (some (ok a, d)) c g h = (a, ground arith, ground arith)
with_result_ok f (some (raise e, d)) c g h = absurd (ground arith)

-- The expiration that a list of them gives for the one asked for, if any: that one where it is listed, and
-- else the first.
abbrev pub Taken : Option String → String → List String → String → Type 0
Taken none first rest taken = taken ≡ first
Taken (some asked) first rest taken =
    ((contains asked (first ∷ rest) ≡ true) × (taken ≡ asked))
    ⊎ ((contains asked (first ∷ rest) ≡ false) × (taken ≡ first))

target_exp-Taken :
    (expiration_date : Option String) (first : String) (rest : List String)
    → Taken expiration_date first rest (target_exp expiration_date first rest)
unfolding target_exp
target_exp-Taken none first rest = ground arith
target_exp-Taken (some asked) first rest = elim (Bool-cases (contains asked (first ∷ rest))) [
  | inl e ↦ inl (e, rw e refl)
  | inr e ↦ inr (e, rw e refl)
]

module _ {F : Type 0} (py : Python F) where
  -- The chain is one that the ticker gives for the expirations: none where there are none, and else of the
  -- expiration taken, with the contracts of its tables.
  abbrev pub OfExpirations : String → Option String → Ticker → List String → OptionChain F → Type 0
  OfExpirations symbol expiration_date t [] chain = chain ≡ empty_chain py symbol expiration_date
  OfExpirations symbol expiration_date t (first ∷ rest) chain =
      (taken : String) × (tables : List Row × List Row) × Taken expiration_date first rest taken
      × (t.option_chain taken ≡ ok tables)
      × (py.strptime taken ≡ ok chain.expiration_date)
      × (parse_contracts py true tables.0 ≡ ok chain.calls)
      × (parse_contracts py false tables.1 ≡ ok chain.puts)

  abbrev pub OfTicker : String → Option String → OptionChain F → Ticker → Type 0
  OfTicker symbol expiration_date chain t =
      (exps : List String) × (t.options ≡ ok exps)
      × OfExpirations symbol expiration_date t exps chain

  read_chain_ok :
      (symbol : String) (expiration_date : Option String) (exp_str : String) (calls puts : List Row)
      (chain : OptionChain F)
      → read_chain py symbol expiration_date (some (exp_str, calls, puts)) ≡ ok chain
      → (py.strptime exp_str ≡ ok chain.expiration_date)
        × (parse_contracts py true calls ≡ ok chain.calls)
        × (parse_contracts py false puts ≡ ok chain.puts)
  unfolding read_chain
  read_chain_ok symbol expiration_date exp_str calls puts chain h =
      let (d, dated, h1) = bind_ok (py.strptime exp_str) _ chain h in
      let (cs, called, h2) = bind_ok (parse_contracts py true calls) _ chain h1 in
      let (ps, put, h3) = bind_ok (parse_contracts py false puts) _ chain h2 in ground arith

  chain_at_ok :
      (symbol : String) (expiration_date : Option String) (t : Ticker) (exps : List String)
      (o : Option (String × List Row × List Row)) (chain : OptionChain F)
      → chain_at t expiration_date exps ≡ ok o
      → read_chain py symbol expiration_date o ≡ ok chain
      → OfExpirations symbol expiration_date t exps chain
  unfolding read_chain
  chain_at_ok symbol expiration_date t [] none chain h k = ground arith
  chain_at_ok symbol expiration_date t [] (some x) chain h k = absurd (ground arith)
  chain_at_ok symbol expiration_date t (first ∷ rest) o chain h k =
      let target = target_exp expiration_date first rest in
      let (tables, found, e) = bind_ok (t.option_chain target) _ o h in
      let (dated, called, put) =
        read_chain_ok symbol expiration_date target tables.0 tables.1 chain
          (ap (λ r. r >>= read_chain py symbol expiration_date) e ∙ k) in
      (target, tables, target_exp-Taken expiration_date first rest, found, dated, called, put)

  fetched_ok :
      (symbol : String) (expiration_date : Option String) (t : Ticker)
      (o : Option (String × List Row × List Row)) (chain : OptionChain F)
      → fetch_chain expiration_date t ≡ ok o
      → read_chain py symbol expiration_date o ≡ ok chain
      → OfTicker symbol expiration_date chain t
  unfolding fetch_chain
  fetched_ok symbol expiration_date t o chain h k =
      let (exps, listed, at) = bind_ok t.options (chain_at t expiration_date) o h in
      (exps, listed, chain_at_ok symbol expiration_date t exps o chain at k)

module _ {B F : Type 0} ⦃fl : Float F⦄ (br : Breaker B F) (py : Python F) {max_retries : ℕ}
    (retrying : Retries is_any max_retries) where
  get_options_chain_ok :
      (symbol : String) (expiration_date : Option String) (meets : Meets F) (g g' : Guard B F)
      (chain : OptionChain F)
      → get_options_chain br py retrying symbol expiration_date meets g ≡ some (ok chain, g')
      → Any (OfTicker py symbol expiration_date chain) (meets.tickers (sanitize_symbol symbol))
  unfolding get_options_chain
  get_options_chain_ok symbol expiration_date meets g g' chain h =
      let tickers = meets.tickers (sanitize_symbol symbol) in
      let (o, e, k) =
        with_result_ok (read_chain py symbol expiration_date)
          (execute_with_resilience br retrying meets.now (map (fetch_chain expiration_date) tickers)
            g)
          chain g' h in
      Any-map (λ r. r ≡ ok o) (OfTicker py symbol expiration_date chain)
        (fetch_chain expiration_date) tickers
        (λ t found. fetched_ok py symbol expiration_date t o chain found k)
        (execute_ok br retrying meets.now (map (fetch_chain expiration_date) tickers) g g' o e)

  -- A snapshot that `fetch_options_snapshot` returns has the rows of the first `limit` contracts within the
  -- bounds on the strike, the calls before the puts, each side where it is asked for. They are of a chain
  -- that a ticker gives in one of the attempts: of the expiration asked for where the ticker lists it, but of
  -- the first that it lists where it does not, or where none is asked for.
  pub fetch_options_snapshot_ok :
      (symbol : String) (asked expiration_date : Option String) (q : Query F) (meets : Meets F)
      (g g' : Guard B F) (rows : List Json)
      → read_date py asked ≡ ok expiration_date
      → fetch_options_snapshot br py retrying symbol asked q meets g ≡ some (ok rows, g')
      → (chain : OptionChain F) × Any
          (OfTicker py symbol expiration_date chain)
          (meets.tickers (sanitize_symbol symbol))
        × (rows ≡ map (snapshot_row chain.expiration_date) (take q.limit (asked_for q chain)))
  unfolding fetch_options_snapshot
  fetch_options_snapshot_ok symbol asked expiration_date q meets g g' rows dated h =
      let h' : snapshot_on br py retrying symbol q meets g (ok expiration_date)
          ≡ some (ok rows, g') =
        ap (snapshot_on br py retrying symbol q meets g) (sym dated) ∙ h in
      let (chain, e, k) =
        with_result_ok (λ chain. ok (snapshot_of q chain))
          (get_options_chain br py retrying symbol expiration_date meets g) rows g' h' in
      (
        chain,
        get_options_chain_ok symbol expiration_date meets g g' chain e,
        ground (arith, snapshot_of-asked_for q chain),
      )
