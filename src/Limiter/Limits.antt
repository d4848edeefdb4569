-- ===== src/Limiter/Limits.antt =====
-- The hard caps of the providers (src/_internal/limits.py) and the tuning constants of AIMD
-- (src/_internal/aimd.py).
use finpipe.Base.{ℕ, Option, none, some, [], ◌∷◌, String, Dict, lookup}
use finpipe.Float.{Float, min, max}

module _ {F : Type 0} ⦃fl : Float F⦄ where
  abbrev pub aimd_min_rate_rps : F
  aimd_min_rate_rps = fl.lit 1 1

  abbrev pub aimd_default_initial_rate_rps : F
  aimd_default_initial_rate_rps = fl.lit 1 0

  abbrev pub aimd_additive_increase_rps : F
  aimd_additive_increase_rps = fl.lit 5 1

  abbrev pub aimd_multiplicative_decrease : F
  aimd_multiplicative_decrease = fl.lit 75 2

  unfoldable pub initial_rate_for_cap : F → F
  initial_rate_for_cap hard_cap_rps =
      min hard_cap_rps (max aimd_min_rate_rps aimd_default_initial_rate_rps)

abbrev pub aimd_burst_capacity : ℕ
aimd_burst_capacity = 10

abbrev pub aimd_successes_before_increase : ℕ
aimd_successes_before_increase = 50

-- A row of the table; a rate is digits / 10 ^ scale.
pub record ProviderHardLimit : Type 0 where
  pub max_requests_per_second : Option (ℕ × ℕ)
  pub max_rpm : Option ℕ

abbrev pub per_second : ℕ → ℕ → ProviderHardLimit
per_second digits scale = record { max_requests_per_second = some (digits, scale); max_rpm = none }

abbrev pub per_minute : ℕ → ProviderHardLimit
per_minute rpm = record { max_requests_per_second = none; max_rpm = some rpm }

abbrev pub default_provider_hard_limits : Dict ProviderHardLimit
default_provider_hard_limits =
    ("yfinance", per_second 10 0)
    ∷ ("yahoo", per_second 2 0)
    ∷ ("alpha_vantage", per_second 83 3)
    ∷ ("fred", per_second 2 0)
    ∷ ("massive", per_second 5 0)
    ∷ ("groq", per_minute 30)
    ∷ ("gemini", per_minute 60)
    ∷ ("nvidia", per_minute 60)
    ∷ ("stocktwits", per_minute 60)
    ∷ ("google_news", per_second 1 0)
    ∷ ("reddit", per_second 5 1)
    ∷ ("screener.tradingview", per_second 2 0)
    ∷ ("screener.yahoo_trending", per_second 2 0)
    ∷ ("screener.yahoo_predefined", per_second 2 0)
    ∷ ("screener.finviz", per_second 2 0)
    ∷ []

module _ {F : Type 0} ⦃fl : Float F⦄ where
  -- `ProviderHardLimit.hard_cap_rps`
  unfoldable pub rpm_cap : Option ℕ → F
  rpm_cap none = fl.lit 1 0
  rpm_cap (some rpm) = fl.div (fl.lit rpm 0) (fl.lit 60 0)

  unfoldable pub documented_cap : ProviderHardLimit → F
  unfolding rpm_cap
  documented_cap limit = elim limit.max_requests_per_second [
    | none ↦ rpm_cap limit.max_rpm
    | some (digits, scale) ↦ fl.lit digits scale
  ]

  -- the branches of `get_hard_cap_rps` on the row that the table has
  unfoldable pub capped : Option ProviderHardLimit → F → F
  capped none configured_cap = configured_cap
  capped (some limit) configured_cap = min configured_cap (documented_cap limit)

  unfoldable pub get_hard_cap_rps : String → F → F
  get_hard_cap_rps namespace configured_cap =
      capped (lookup namespace default_provider_hard_limits) configured_cap
