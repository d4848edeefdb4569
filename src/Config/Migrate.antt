-- ===== src/Config/Migrate.antt =====
-- The migration of `providers.gemini.prompt_compression` to `llm_prompt.compression`, and the
-- settings that each loader of `FinpipeConfig` hands to validation (src/core/config.py).
use finpipe.Base.{Option, none, some, String, if◌then◌else◌, str_eq}
use finpipe.Errors.{Result, ok, raise, type_error, ◌>>=◌}
use finpipe.Json.{Json, str, obj, Fields, end, truthy, get, set, without}
use finpipe.Config.Merge.{deep_merge}

-- `isinstance(v, dict)`, with the dict
abbrev pub as_dict : Option Json → Option Fields
as_dict (some (obj f)) = some f
as_dict _ = none

-- `dict(v or {})`. A value that is true and no dict is refused by `dict`.
abbrev pub dict_or_empty : Option Json → Result Fields
dict_or_empty none = ok end
dict_or_empty (some (obj f)) = ok f
dict_or_empty (some v) = if truthy v then raise (type_error "cannot convert to dict") else ok end

-- `if "compression" not in llm_prompt: llm_prompt["compression"] = value`
unfoldable pub set_default : String → Json → Fields → Fields
set_default k v fs = elim (get k fs) [ none ↦ set k v fs | some _ ↦ fs ]

-- the two writes into the copy of the settings
unfoldable pub moved : Fields → Fields → Fields → Json → Fields → Fields
unfolding set_default
moved settings providers gemini compression llm_prompt =
    set "providers" (obj (set "gemini" (obj (without "prompt_compression" gemini)) providers))
      (set "llm_prompt" (obj (set_default "compression" compression llm_prompt)) settings)

-- the part of the function behind its two early returns
unfoldable pub move_compression : Fields → Fields → Fields → Json → Result Fields
move_compression settings providers gemini compression = do
  llm_prompt ← dict_or_empty (get "llm_prompt" settings)
  ok (moved settings providers gemini compression llm_prompt)

unfoldable pub migrate_gemini : Fields → Fields → Fields → Result Fields
unfolding move_compression
migrate_gemini settings providers gemini = elim (get "prompt_compression" gemini) [
  | none ↦ ok settings
  | some compression ↦ move_compression settings providers gemini compression
]

unfoldable pub migrate_providers : Fields → Fields → Result Fields
unfolding migrate_gemini
migrate_providers settings providers = elim (as_dict (get "gemini" providers)) [
  | none ↦ ok settings
  | some gemini ↦ migrate_gemini settings providers gemini
]

-- `_migrate_legacy_llm_prompt_settings`
unfoldable pub migrate : Fields → Result Fields
unfolding migrate_providers
migrate settings = elim (as_dict (get "providers" settings)) [
  | none ↦ ok settings
  | some providers ↦ migrate_providers settings providers
]

-- `FinpipeConfig.apply_env_overrides`: `backend` is the environment's FINPIPE_CACHE_BACKEND.
unfoldable pub override_cache : Option String → Fields → Result Fields
override_cache none settings = ok settings
override_cache (some backend) settings = if str_eq backend "" then ok settings else do
  cache ← dict_or_empty (get "cache" settings)
  ok (set "cache" (obj (set "cache_type" (str backend) cache)) settings)

unfoldable pub apply_env_overrides : Option String → Fields → Result Fields
unfolding migrate override_cache
apply_env_overrides backend settings = do
  migrated ← migrate settings
  override_cache backend migrated

-- `from_file`: the settings of the file, merged with those of a local file where one is given, over
-- the dump of the defaults. What is returned is what pydantic validates.
unfoldable pub from_file : Option String → Fields → Fields → Option Fields → Result Fields
unfolding apply_env_overrides deep_merge
from_file backend base file local =
    apply_env_overrides backend
      (deep_merge base (elim local [ none ↦ file | some l ↦ deep_merge file l ]))

-- `from_dict`
unfoldable pub from_dict : Option String → Fields → Fields → Result Fields
unfolding apply_env_overrides deep_merge
from_dict backend base settings = do
  migrated ← migrate settings
  apply_env_overrides backend (deep_merge base migrated)

-- `settings["outer"]["inner"]`
abbrev pub get_in : String → String → Fields → Option Json
get_in outer inner settings = elim (as_dict (get outer settings)) [
  | none ↦ none
  | some d ↦ get inner d
]
