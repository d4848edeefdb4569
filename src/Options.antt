-- ===== src/Options.antt =====
-- The option contracts and chains of src/core/models.py, and the snapshot of a chain that
-- src/providers/yahoo.py and src/providers/schwab.py both make. A `limit` is no negative number.
pub mod Snapshots
pub mod Contracts
use finpipe.Base.{
  ℕ, Bool, true, false, ◌&&◌, Option, none, some, List, [], ◌∷◌, ◌++◌, map, String, str_eq, leb,
  length, take, filter, if◌then◌else◌,
}
use finpipe.Float.{Float}
use finpipe.Errors.{Result, ok, raise, ◌>>=◌}
use finpipe.Json.{Json, num, str, obj, Fields, end, field}

-- The strike is a float. The other numbers are values of Python that pydantic has checked.
pub record OptionContract (F : Type 0) : Type 0 where
  pub contract_symbol : Json
  pub strike : F
  pub last_price : Json
  pub bid : Json
  pub ask : Json
  pub volume : Json
  pub open_interest : Json
  pub implied_volatility : Json
  pub in_the_money : Bool

pub record OptionChain (F : Type 0) : Type 0 where
  pub symbol : String
  pub expiration_date : String
  pub calls : List (OptionContract F)
  pub puts : List (OptionContract F)

-- Python's `float(v)`, as a float and as a value, `int(v)` and `str(v)`, pydantic's check of a contract,
-- `datetime.strptime(v, "%Y-%m-%d").date()`, `date.fromisoformat(v)` and today's date.
pub record Python (F : Type 0) : Type 0 where
  pub read_float : Json → Result F
  pub number : F → Json
  pub float_value : Json → Result Json
  pub int_value : Json → Result Json
  pub print : Json → String
  pub validate : OptionContract F → Result (OptionContract F)
  pub strptime : String → Result String
  pub fromisoformat : String → Result String
  pub today : String

abbrev pub zero_float : Json
zero_float = num (record { negative = false; digits = 0; scale = 1 })

abbrev pub zero_int : Json
zero_int = num (record { negative = false; digits = 0; scale = 0 })

module _ {F : Type 0} (py : Python F) where
  -- `date.fromisoformat(expiration_date) if expiration_date else None`
  abbrev pub read_date : Option String → Result (Option String)
  read_date none = ok none
  read_date (some text) =
      if str_eq text "" then ok none else (py.fromisoformat text >>= (λ d. ok (some d)))

-- the arguments of `fetch_options_snapshot` that it uses
pub record Query (F : Type 0) : Type 0 where
  pub contract_type : Option String
  pub strike_price_gte : Option F
  pub strike_price_lte : Option F
  pub limit : ℕ

-- `contract_type in (None, side)`
abbrev pub asks_for : String → Option String → Bool
asks_for side none = true
asks_for side (some contract_type) = str_eq contract_type side

module _ {F : Type 0} where
  -- `sides`
  unfoldable pub sides_of : Query F → OptionChain F → List (List (OptionContract F))
  sides_of q chain =
      let puts = if asks_for "put" q.contract_type then chain.puts ∷ [] else [] in
      if asks_for "call" q.contract_type then chain.calls ∷ puts else puts

  -- the dict that a contract is appended as
  abbrev pub snapshot_row : String → OptionContract F → Json
  snapshot_row expiration c = obj (
      field "details" (obj (field "ticker" c.contract_symbol end)) (
        field "day" (obj (field "close" c.last_price (field "volume" c.volume end))) (
          field "open_interest" c.open_interest (
            field "implied_volatility" c.implied_volatility (
              field "last_quote" (obj (field "bid" c.bid (field "ask" c.ask end)))
                (field "expiration_date" (str expiration) end))))))

  -- The loop over the contracts of a side: the snapshots, and whether it returned them.
  unfoldable pub append_rows : String → ℕ → List (OptionContract F) → List Json → List Json × Bool
  append_rows expiration limit [] snapshots = (snapshots, false)
  append_rows expiration limit (c ∷ cs) snapshots =
      let appended = snapshots ++ snapshot_row expiration c ∷ [] in
      elim (leb limit (length appended)) [
        | true ↦ (appended, true)
        | false ↦ append_rows expiration limit cs appended
      ]

  module _ ⦃fl : Float F⦄ where
    abbrev pub at_least : Option F → F → Bool
    at_least none strike = true
    at_least (some gte) strike = fl.leb gte strike

    abbrev pub at_most : Option F → F → Bool
    at_most none strike = true
    at_most (some lte) strike = fl.leb strike lte

    -- `filtered`: one filter after the other
    unfoldable pub filtered : Query F → List (OptionContract F) → List (OptionContract F)
    filtered q rows =
        filter (λ (c : OptionContract F). at_most q.strike_price_lte c.strike)
          (filter (λ (c : OptionContract F). at_least q.strike_price_gte c.strike) rows)

    -- the loop over the sides
    unfoldable pub append_sides :
        String → Query F → List (List (OptionContract F)) → List Json → List Json
    unfolding filtered append_rows
    append_sides expiration q [] snapshots = snapshots
    append_sides expiration q (rows ∷ sides) snapshots =
        let o = append_rows expiration q.limit (take q.limit (filtered q rows)) snapshots in
        let more = append_sides expiration q sides o.0 in if o.1 then o.0 else more

    -- `fetch_options_snapshot` of a chain
    unfoldable pub snapshot_of : Query F → OptionChain F → List Json
    unfolding append_sides sides_of
    snapshot_of q chain = append_sides chain.expiration_date q (sides_of q chain) []

  -- the dicts of `fetch_options_contracts`, where `number` is a float as a value
  abbrev pub contract_dict : (F → Json) → String → String → OptionContract F → Json
  contract_dict number side expiration c = obj (
      field "contract_type" (str side) (
        field "strike_price" (number c.strike)
          (field "ticker" c.contract_symbol (field "expiration_date" (str expiration) end))))

  unfoldable pub contracts_of : (F → Json) → String → OptionChain F → List Json
  contracts_of number expiration chain =
      map (contract_dict number "call" expiration) chain.calls
      ++ map (contract_dict number "put" expiration) chain.puts
