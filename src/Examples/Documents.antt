-- ===== src/Examples/Documents.antt =====
-- Runs of the settings: merging and migrating (src/core/config.py), redacting and dumping
-- (src/core/settings_dump.py).
use finpipe.Base.{◌≡◌, refl, none, some, true}
use finpipe.Errors.{ok}
use finpipe.Json.{Json, null, bool, str, obj, Fields, end, field}
use finpipe.Config.Migrate.{migrate, from_file, get_in}
use finpipe.Config.Legacy.{kept_or_moved, get_gemini, migrate_moves_legacy, from_file_drops_legacy}
use finpipe.Settings.Redact.{redact, describe}
use finpipe.Settings.Dump.{Config, dump_settings}
use finpipe.Settings.Secrecy.{Conceals, IsRedacted, IsMarked, client_secret, redact_hides_secrets}
use finpipe.Settings.Whole.{dump_settings_hides_secrets}

abbrev compression : Fields
compression = field "enabled" (bool true) end

abbrev base : Fields
base = field "llm_prompt" (obj (field "compression" (obj compression) end)) end

abbrev legacy : Json
legacy = obj (field "endpoint_url" (str "https://example.org") end)

abbrev gemini : Fields
gemini = field "prompt_compression" legacy end

abbrev legacy_providers : Fields
legacy_providers = field "gemini" (obj gemini) end

abbrev legacy_file : Fields
legacy_file = field "providers" (obj legacy_providers) end

-- a change of one key of a nested dict, where the base has another
abbrev changes : Fields
changes = field "llm_prompt" (obj (field "enabled" (bool true) end)) end

migrate_moves_legacy_example :
    (r : Fields) × (migrate legacy_file ≡ ok r)
    × (get_in "llm_prompt" "compression" r ≡ some (kept_or_moved none legacy))
    × (get_gemini "prompt_compression" r ≡ none)
    × (get_in "providers" "yahoo" r ≡ none)
    × (migrate r ≡ ok r)
migrate_moves_legacy_example =
    migrate_moves_legacy legacy_file legacy_providers gemini end legacy "prompt_compression" "yahoo"
      refl refl refl refl

from_file_drops_legacy_example :
    (r : Fields) × (from_file none base legacy_file none ≡ ok r)
    × (get_in "llm_prompt" "compression" r ≡ some (obj compression))
from_file_drops_legacy_example =
    from_file_drops_legacy base legacy_file (field "compression" (obj compression) end)
      (obj compression) (refl, tt) refl refl refl

-- a nested dict, with a key of each kind
abbrev credentials : Fields
credentials = field "access_key_id" (str "a") (field "secret_access_key" (str "b") end)

abbrev keys : Fields
keys =
    field "api_key" (str "k")
      (field "flat_files" (obj credentials) (field "client_secret" (str "s") end))

redact_hides_secrets_example :
    Conceals IsRedacted (redact (obj keys))
    × Conceals IsMarked (describe (obj keys))
    × (redact (redact (obj keys)) ≡ redact (obj keys))
    × (redact (client_secret "s") ≡ client_secret "s")
    × (describe (client_secret "s") ≡ client_secret "s")
redact_hides_secrets_example = redact_hides_secrets (obj keys) "s"

abbrev settings : Config
settings = record {
  dataframe_format = "pandas";
  cache = obj (field "maxsize" null end);
  routing = field "equity_primary" (str "yahoo") end;
  health = null;
  provider = λ name. obj keys;
}

dump_settings_hides_secrets_example : Conceals IsRedacted (obj (dump_settings settings true))
dump_settings_hides_secrets_example = dump_settings_hides_secrets settings (tt, tt) (tt, tt) tt
