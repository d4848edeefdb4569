-- ===== src/Config/Discovery.antt =====
-- Which settings are loaded: `_settings_discovery_paths` and `FinpipeConfig.load` of src/core/config.py. A path
-- is its text. `getenv` is `os.getenv`, and `is_file` says which paths are files.
use finpipe.Base.{
  ◌≡◌, refl, Bool, true, false, Bool-cases, inl, inr, Option, none, some, List, [], ◌∷◌, ◌++◌,
  String, concat, any, contains, if◌then◌else◌, arith, eq_refl,
}
use finpipe.Llm.Compress.{is_missing}

-- the text behind a truthy value
abbrev pub given : Option String → List String → (String → List String) → List String
given value otherwise paths =
    if is_missing value then otherwise else elim value [ none ↦ otherwise | some v ↦ paths v ]

unfoldable pub settings_discovery_paths : (String → Option String) → String → List String
settings_discovery_paths getenv home =
    "finpipe.settings.json"
    ∷ ".finpipe/settings.json"
    ∷ (given (getenv "XDG_CONFIG_HOME") (concat home "/.config/finpipe/settings.json" ∷ [])
          (λ config_home. concat config_home "/finpipe/settings.json" ∷ [])
        ++ given (getenv "APPDATA") [] (λ appdata. concat appdata "/finpipe/settings.json" ∷ []))

-- what `load` builds the configuration from
pub data Origin : Type 0 where
  from_path : String → Origin
  from_env : Origin

-- the loop over the candidates
unfoldable pub first_file : (String → Bool) → List String → Origin
first_file is_file [] = from_env
first_file is_file (candidate ∷ candidates) =
    if is_file candidate then from_path candidate else first_file is_file candidates

abbrev pub explicit_or : Option String → Option String → Option String
explicit_or path config = if is_missing path then config else path

unfoldable pub load : (String → Option String) → (String → Bool) → String → Option String → Origin
unfolding settings_discovery_paths first_file
load getenv is_file home path =
    let found = first_file is_file (settings_discovery_paths getenv home) in
    let explicit = explicit_or path (getenv "FINPIPE_CONFIG") in
    if is_missing explicit then found else elim explicit [ none ↦ found | some p ↦ from_path p ]

-- The search finds a file among the candidates, and the environment is used exactly where none is a file.
abbrev pub Finds : (String → Bool) → List String → Origin → Type 0
Finds is_file candidates (from_path p) = (is_file p ≡ true) × (contains p candidates ≡ true)
Finds is_file candidates from_env = any is_file candidates ≡ false

first_file-Finds :
    (is_file : String → Bool) (candidates : List String)
    → Finds is_file candidates (first_file is_file candidates)
unfolding first_file
first_file-Finds is_file [] = refl
first_file-Finds is_file (candidate ∷ candidates) = elim (Bool-cases (is_file candidate)) [
  | inl e ↦ rw e (e, ground (arith, eq_refl candidate))
  | inr e ↦ rw e (later (first_file is_file candidates) (first_file-Finds is_file candidates) e)
]
  where
    later :
        (o : Origin)
        → Finds is_file candidates o
        → is_file candidate ≡ false
        → Finds is_file (candidate ∷ candidates) o
    later (from_path p) (file, among) e = (file, ground arith)
    later from_env h e = ground arith
