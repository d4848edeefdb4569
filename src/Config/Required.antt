-- ===== src/Config/Required.antt =====
-- Required keys in src/core/config.py: `ensure_configured` of the providers, and `get_required_key`.
use finpipe.Base.{
  Bool, not, ◌||◌, Option, none, some, List, [], ◌∷◌, String, Dict, lookup, concat, join,
  if◌then◌else◌, map,
}
use finpipe.Errors.{Result, Done, ok, raise, config_error}
use finpipe.Llm.Compress.{is_missing}

-- a provider with one key
pub record KeyConfig : Type 0 where
  pub enabled : Bool
  pub api_key : Option String

abbrev pub ensure_key : String → KeyConfig → Done
ensure_key env_name c =
    if not c.enabled
    then ok tt
    else (if is_missing c.api_key
        then raise (config_error (concat "Missing required API key configuration: " env_name))
        else ok tt)

unfoldable pub fred_configured : KeyConfig → Done
fred_configured c = ensure_key "FRED_API_KEY" c

unfoldable pub alpha_vantage_configured : KeyConfig → Done
alpha_vantage_configured c = ensure_key "ALPHA_VANTAGE_API_KEY" c

unfoldable pub groq_configured : KeyConfig → Done
groq_configured c = ensure_key "GROQ_API_KEY" c

unfoldable pub gemini_configured : KeyConfig → Done
gemini_configured c = ensure_key "GEMINI_API_KEY" c

unfoldable pub nvidia_configured : KeyConfig → Done
nvidia_configured c = ensure_key "NVIDIA_API_KEY" c

pub record MassiveConfig : Type 0 where
  pub enabled : Bool
  pub api_key : Option String
  pub access_key_id : Option String
  pub secret_access_key : Option String
  pub s3_endpoint : Option String
  pub s3_bucket : Option String

-- the name, where the value is None
abbrev pub absent : String → Option String → List String → List String
absent name none names = name ∷ names
absent name (some v) names = names

unfoldable pub missing_massive : MassiveConfig → List String
missing_massive c = absent "api_key" c.api_key (
    absent "access_key_id" c.access_key_id (
      absent "secret_access_key" c.secret_access_key
        (absent "s3_endpoint" c.s3_endpoint (absent "s3_bucket" c.s3_bucket []))))

abbrev pub quoted : String → String
quoted s = concat "'" (concat s "'")

abbrev pub missing_error : List String → Done
missing_error [] = ok tt
missing_error (name ∷ names) = raise (
    config_error (
      concat "Missing required Massive configuration: ["
        (concat (join ", " (map quoted (name ∷ names))) "]")))

unfoldable pub massive_configured : MassiveConfig → Done
unfolding missing_massive
massive_configured c = if not c.enabled then ok tt else missing_error (missing_massive c)

pub record SchwabConfig : Type 0 where
  pub enabled : Bool
  pub app_key : Option String
  pub app_secret : Option String
  pub refresh_token : Option String

unfoldable pub schwab_configured : SchwabConfig → Done
schwab_configured c =
    if not c.enabled
    then ok tt
    else (if is_missing c.app_key || is_missing c.app_secret || is_missing c.refresh_token
        then raise (
            config_error
              "Missing required Schwab configuration: SCHWAB_APP_KEY, SCHWAB_APP_SECRET, and SCHWAB_REFRESH_TOKEN")
        else ok tt)

-- `_REQUIRED_KEYS`, with the names of the environment's variables
abbrev pub required_keys : Dict String
required_keys =
    ("fred_api_key", "FRED_API_KEY")
    ∷ ("alpha_vantage_api_key", "ALPHA_VANTAGE_API_KEY")
    ∷ ("groq_api_key", "GROQ_API_KEY")
    ∷ ("gemini_api_key", "GEMINI_API_KEY")
    ∷ ("nvidia_api_key", "NVIDIA_API_KEY")
    ∷ ("massive_api_key", "MASSIVE_API_KEY")
    ∷ ("schwab_app_key", "SCHWAB_APP_KEY")
    ∷ ("schwab_app_secret", "SCHWAB_APP_SECRET")
    ∷ ("schwab_refresh_token", "SCHWAB_REFRESH_TOKEN")
    ∷ []

abbrev pub value_or_missing : String → Option String → Result String
value_or_missing env_name none =
    raise (config_error (concat "Missing required configuration: " env_name))
value_or_missing env_name (some value) =
    if is_missing (some value)
    then raise (config_error (concat "Missing required configuration: " env_name))
    else ok value

-- `getenv` is `os.getenv`.
unfoldable pub get_required_key : (String → Option String) → String → Result String
get_required_key getenv key = elim (lookup key required_keys) [
  | none ↦ raise (config_error (concat "Unknown required key: " key))
  | some env_name ↦ value_or_missing env_name (getenv env_name)
]
