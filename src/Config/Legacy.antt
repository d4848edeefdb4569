-- ===== src/Config/Legacy.antt =====
-- What becomes of a legacy `providers.gemini.prompt_compression` (src/core/config.py).
use finpipe.Base.{
  if◌then◌else◌, str_eq, ◌≡◌, refl, Option, none, some, String, eq_iff, arith, Option-cases, inl,
  inr,
}
use finpipe.Errors.{ok}
use finpipe.Json.{
  Json, obj, Fields, end, field, get, set, without, IsDict, get-set, get-without, set-IsDict,
}
use finpipe.Config.Merge.{deep_merge, merge_value, get-deep_merge}
use finpipe.Config.Migrate.{
  as_dict, dict_or_empty, set_default, moved, migrate, from_file, from_dict, get_in,
}

-- `compression` under `llm_prompt` after the move: the value that is there already, else the legacy one.
abbrev pub kept_or_moved : Option Json → Json → Json
kept_or_moved none v = v
kept_or_moved (some c) v = c

-- `settings["providers"]["gemini"][key]`
abbrev pub get_gemini : String → Fields → Option Json
get_gemini key settings = elim (as_dict (get_in "providers" "gemini" settings)) [
  | none ↦ none
  | some d ↦ get key d
]

get-set_default :
    (k : String) (v : Json) (fs : Fields)
    → get k (set_default k v fs) ≡ some (kept_or_moved (get k fs) v)
unfolding set_default
get-set_default k v fs = elim (Option-cases (get k fs)) [
  | inl e ↦ ground (arith, eq_iff k k, get-set k k v fs)
  | inr (c, e) ↦ ground arith
]

module _ (settings providers gemini llm_prompt : Fields) (v : Json) where
  get-moved_llm_prompt :
      get "llm_prompt" (moved settings providers gemini v llm_prompt)
      ≡ some (obj (set_default "compression" v llm_prompt))
  unfolding moved
  get-moved_llm_prompt = simp get-set

  get-moved_providers :
      get "providers" (moved settings providers gemini v llm_prompt)
      ≡ some (obj (set "gemini" (obj (without "prompt_compression" gemini)) providers))
  unfolding moved
  get-moved_providers = simp get-set

  get_gemini-moved :
      (key : String)
      → get_gemini key (moved settings providers gemini v llm_prompt)
        ≡ (if str_eq "prompt_compression" key then none else get key gemini)
  get_gemini-moved key = ground (
    arith,
    get-moved_providers,
    get-set "gemini" "gemini" (obj (without "prompt_compression" gemini)) providers,
    get-without "prompt_compression" key gemini,
  )

  get_in-moved :
      (name : String)
      → get_in "providers" name (moved settings providers gemini v llm_prompt) ≡ (
          if str_eq "gemini" name
          then get_in "providers" "gemini" (moved settings providers gemini v llm_prompt)
          else get name providers)
  get_in-moved name =
      let clean = obj (without "prompt_compression" gemini) in
      ground (
        arith,
        get-moved_providers,
        get-set "gemini" "gemini" clean providers,
        get-set "gemini" name clean providers,
      )

  -- The migration does not look at a result of its own again.
  migrate-moved :
      migrate (moved settings providers gemini v llm_prompt)
      ≡ ok (moved settings providers gemini v llm_prompt)
  unfolding migrate
  migrate-moved =
      let clean = without "prompt_compression" gemini in
      ground (
        arith,
        get-moved_providers,
        get-set "gemini" "gemini" (obj clean) providers,
        get-without "prompt_compression" "prompt_compression" gemini,
      )

  migrate-eq-moved :
      get "providers" settings ≡ some (obj providers)
      → get "gemini" providers ≡ some (obj gemini)
      → get "prompt_compression" gemini ≡ some v
      → dict_or_empty (get "llm_prompt" settings) ≡ ok llm_prompt
      → migrate settings ≡ ok (moved settings providers gemini v llm_prompt)
  unfolding migrate
  migrate-eq-moved hp hg hv hl = ground arith

-- Where the settings have a legacy compression under `providers.gemini` and `llm_prompt` is a dict or
-- stands for an empty one, the migration succeeds. Its result has the legacy value under
-- `llm_prompt.compression`, unless the settings have one there already, which is kept; it has none
-- under `providers.gemini` any more, but each other key of it and each other provider as before; and to
-- migrate the result again changes nothing.
pub migrate_moves_legacy :
    (settings providers gemini llm_prompt : Fields) (v : Json) (key name : String)
    → get "providers" settings ≡ some (obj providers)
    → get "gemini" providers ≡ some (obj gemini)
    → get "prompt_compression" gemini ≡ some v
    → dict_or_empty (get "llm_prompt" settings) ≡ ok llm_prompt
    → (r : Fields) × (migrate settings ≡ ok r)
      × (get_in "llm_prompt" "compression" r
          ≡ some (kept_or_moved (get "compression" llm_prompt) v))
      × (get_gemini key r ≡ (if str_eq "prompt_compression" key then none else get key gemini))
      × (get_in "providers" name r
          ≡ (if str_eq "gemini" name then get_in "providers" "gemini" r else get name providers))
      × (migrate r ≡ ok r)
migrate_moves_legacy settings providers gemini llm_prompt v key name hp hg hv hl = (
  moved settings providers gemini v llm_prompt,
  migrate-eq-moved settings providers gemini llm_prompt v hp hg hv hl,
  ground (
    arith,
    get-moved_llm_prompt settings providers gemini llm_prompt v,
    get-set_default "compression" v llm_prompt,
  ),
  get_gemini-moved settings providers gemini llm_prompt v key,
  get_in-moved settings providers gemini llm_prompt v name,
  migrate-moved settings providers gemini llm_prompt v,
)

-- The migration leaves `llm_prompt.compression` alone where it is there already.
migrate-keeps :
    (settings llm_prompt : Fields) (c : Json)
    → get "llm_prompt" settings ≡ some (obj llm_prompt)
    → get "compression" llm_prompt ≡ some c
    → (r : Fields) × (migrate settings ≡ ok r) × (get_in "llm_prompt" "compression" r ≡ some c)
unfolding migrate
migrate-keeps settings llm_prompt c hl hc =
    elim (Option-cases (as_dict (get "providers" settings))) [
      | inl e ↦ (settings, ground arith, ground arith)
      | inr (providers, e) ↦ elim (Option-cases (as_dict (get "gemini" providers))) [
        | inl f ↦ (settings, ground arith, ground arith)
        | inr (gemini, f) ↦ elim (Option-cases (get "prompt_compression" gemini)) [
          | inl g ↦ (settings, ground arith, ground arith)
          | inr (v, g) ↦ (
            moved settings providers gemini v llm_prompt,
            ground arith,
            ground (
              arith,
              get-moved_llm_prompt settings providers gemini llm_prompt v,
              get-set_default "compression" v llm_prompt,
            ),
          )
        ]
      ]
    ]

-- `from_file` merges before it migrates. Where the dump of the defaults has an `llm_prompt.compression`,
-- the file has no `llm_prompt`, and neither a local file nor FINPIPE_CACHE_BACKEND is given, the settings
-- that are validated have that default compression, whatever legacy
-- `providers.gemini.prompt_compression` the file has.
pub from_file_drops_legacy :
    (base file llm_prompt : Fields) (c : Json)
    → IsDict file
    → get "llm_prompt" base ≡ some (obj llm_prompt)
    → get "compression" llm_prompt ≡ some c
    → get "llm_prompt" file ≡ none
    → (r : Fields) × (from_file none base file none ≡ ok r)
      × (get_in "llm_prompt" "compression" r ≡ some c)
unfolding from_file
from_file_drops_legacy base file llm_prompt c d hb hc hf =
    let e : get "llm_prompt" (deep_merge base file) ≡ some (obj llm_prompt) =
      ground (arith, get-deep_merge "llm_prompt" base file d) in
    let (r, done, kept) = migrate-keeps (deep_merge base file) llm_prompt c e hc in
    (r, ground arith, kept)

moved-IsDict :
    (settings providers gemini llm_prompt : Fields) (v : Json)
    → IsDict settings
    → IsDict (moved settings providers gemini v llm_prompt)
unfolding moved
moved-IsDict settings providers gemini llm_prompt v d =
    set-IsDict "providers" _ _ (set-IsDict "llm_prompt" _ settings d)

get-deep_merge-moved :
    (base settings providers gemini llm_prompt : Fields) (v : Json)
    → IsDict settings
    → get "llm_prompt" base ≡ some (obj llm_prompt)
    → get "llm_prompt" (deep_merge base (moved settings providers gemini v end))
      ≡ some (obj (deep_merge llm_prompt (field "compression" v end)))
unfolding merge_value set_default
get-deep_merge-moved base settings providers gemini llm_prompt v d hb = ground (
  arith,
  get-deep_merge "llm_prompt" base (moved settings providers gemini v end)
      (moved-IsDict settings providers gemini end v d),
  get-moved_llm_prompt settings providers gemini end v,
)

-- `from_dict` migrates before it merges. Where the dump of the defaults has an `llm_prompt.compression`,
-- the settings have a legacy compression and no `llm_prompt`, and FINPIPE_CACHE_BACKEND is not given, the
-- legacy value reaches validation, merged into the default compression.
from_dict_keeps_legacy :
    (base settings providers gemini llm_prompt : Fields) (c v : Json)
    → IsDict settings
    → get "llm_prompt" base ≡ some (obj llm_prompt)
    → get "compression" llm_prompt ≡ some c
    → get "providers" settings ≡ some (obj providers)
    → get "gemini" providers ≡ some (obj gemini)
    → get "prompt_compression" gemini ≡ some v
    → get "llm_prompt" settings ≡ none
    → (r : Fields) × (from_dict none base settings ≡ ok r)
      × (get_in "llm_prompt" "compression" r ≡ some (merge_value (some c) v))
unfolding from_dict
from_dict_keeps_legacy base settings providers gemini llm_prompt c v d hb hc hp hg hv hl =
    let m = moved settings providers gemini v end in
    let migrated : migrate settings ≡ ok m =
      migrate-eq-moved settings providers gemini end v hp hg hv (ground arith) in
    let e : get "llm_prompt" (deep_merge base m)
        ≡ some (obj (deep_merge llm_prompt (field "compression" v end))) =
      get-deep_merge-moved base settings providers gemini llm_prompt v d hb in
    let f : get "compression" (deep_merge llm_prompt (field "compression" v end))
        ≡ some (merge_value (some c) v) =
      ground
        (arith, get-deep_merge "compression" llm_prompt (field "compression" v end) (refl, tt)) in
    let (r, done, kept) =
      migrate-keeps (deep_merge base m) (deep_merge llm_prompt (field "compression" v end))
        (merge_value (some c) v) e f in
    (r, ground arith, kept)
