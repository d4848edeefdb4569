-- ===== src/Settings/Whole.antt =====
-- The whole dump of src/core/settings_dump.py hides what is under the secret keys of every provider.
use finpipe.Base.{
  ◌≡◌, Bool, true, false, Bool-cases, Option-cases, inl, inr, Option, none, some, List, [], ◌∷◌,
  String, str_eq, eq_iff, arith, if◌then◌else◌, All,
}
use finpipe.Json.{Json, obj, Fields, end, field, get, set}
use finpipe.Settings.Dump.{
  Config, CapabilitySettings, capability_settings, provider_names, strings, routed, select,
  capability_entry, dump_capabilities, dump_providers, dump_provider_settings,
  dump_capability_settings, given_or_dumped, dump_settings,
}
use finpipe.Settings.Secrecy.{
  is_hidden, Conceals, ConcealsItems, ConcealsFields, IsRedacted, redact_hides_secrets,
}

-- A dict whose hidden keys hold nothing that is to be hidden, and a name that is none of them.
abbrev IsClean : Fields → Type 0
IsClean = ConcealsFields IsRedacted

abbrev IsPlain : String → Type 0
IsPlain name = is_hidden name ≡ false

set-IsClean :
    (k : String) (v : Json) (fs : Fields)
    → IsPlain k
    → Conceals IsRedacted v
    → IsClean fs
    → IsClean (set k v fs)
set-IsClean k v end p h d = rw p (h, tt)
set-IsClean k v (field j w fs) p h d = elim (Bool-cases (str_eq j k)) [
  | inl e ↦ rw (e, (eq_iff j k).0 e, p) (h, d.1)
  | inr e ↦ rw e (d.0, set-IsClean k v fs p h d.1)
]

plain_entry :
    (secret : Bool) (v : Json)
    → secret ≡ false
    → (if secret then IsRedacted v else Conceals IsRedacted v)
    → Conceals IsRedacted v
plain_entry true v e h = absurd (ground arith)
plain_entry false v e h = h

get-IsClean :
    (k : String) (v : Json) (fs : Fields)
    → IsPlain k
    → IsClean fs
    → get k fs ≡ some v
    → Conceals IsRedacted v
get-IsClean k v end p d e = absurd (ground arith)
get-IsClean k v (field j w fs) p d e = elim (Bool-cases (str_eq j k)) [
  | inl s ↦
      let same : w ≡ v = ground arith in
      rw (← same) (plain_entry (is_hidden j) w (rw ((eq_iff j k).0 s) p) d.0)
  | inr s ↦ get-IsClean k v fs p d.1 (ground arith)
]

dump_providers-IsClean :
    (config : Config) (names : List String) (out : Fields)
    → All IsPlain names
    → IsClean out
    → IsClean (dump_providers config true names out)
unfolding dump_providers
dump_providers-IsClean config [] out p d = d
dump_providers-IsClean config (name ∷ names) out p d =
    dump_providers-IsClean config names _ p.1
      (set-IsClean name _ out p.0 (redact_hides_secrets (config.provider name) "").0 d)

select-IsClean :
    (names : List String) (settings out : Fields)
    → All IsPlain names
    → IsClean settings
    → IsClean out
    → IsClean (select names settings out)
unfolding select
select-IsClean [] settings out p s d = d
select-IsClean (name ∷ names) settings out p s d = elim (Option-cases (get name settings)) [
  | inl e ↦ rw e (select-IsClean names settings out p.1 s d)
  | inr (v, e) ↦ rw e (
      select-IsClean names settings (set name v out) p.1 s
        (set-IsClean name v out p.0 (get-IsClean name v settings p.0 s e) d))
]

strings-IsClean : (ss : List String) → ConcealsItems IsRedacted (strings ss)
strings-IsClean [] = tt
strings-IsClean (s ∷ ss) = (tt, strings-IsClean ss)

abbrev IsPlainKey : Option String → Type 0
IsPlainKey none = Unit
IsPlainKey (some k) = IsPlain k

routed-IsClean :
    (routing : Fields) (key : Option String)
    → IsPlainKey key
    → IsClean routing
    → Conceals IsRedacted (routed routing key)
routed-IsClean routing none p d = tt
routed-IsClean routing (some k) p d = elim (Option-cases (get k routing)) [
  | inl e ↦ rw (e, routed) tt
  | inr (v, e) ↦ rw (e, routed) (get-IsClean k v routing p d e)
]

-- The names of a row of the table are none of the hidden keys.
abbrev IsPlainRow : CapabilitySettings → Type 0
IsPlainRow c =
    IsPlain c.name
    × IsPlainKey c.primary_routing_key
    × IsPlainKey c.fallback_routing_key
    × All IsPlain c.providers

capability_entry-IsClean :
    (routing settings : Fields) (c : CapabilitySettings)
    → IsPlainRow c
    → IsClean routing
    → IsClean settings
    → Conceals IsRedacted (capability_entry routing settings c)
unfolding capability_entry
capability_entry-IsClean routing settings c p r s = (
  strings-IsClean c.protocols,
  (
    routed-IsClean routing c.primary_routing_key p.1 r,
    (
      routed-IsClean routing c.fallback_routing_key p.2 r,
      (select-IsClean c.providers settings end p.3 s tt, tt),
    ),
  ),
)

dump_capabilities-IsClean :
    (routing settings : Fields) (cs : List CapabilitySettings) (out : Fields)
    → All IsPlainRow cs
    → IsClean routing
    → IsClean settings
    → IsClean out
    → IsClean (dump_capabilities routing settings cs out)
unfolding dump_capabilities
dump_capabilities-IsClean routing settings [] out p r s d = d
dump_capabilities-IsClean routing settings (c ∷ cs) out p r s d =
    dump_capabilities-IsClean routing settings cs _ p.1 r s
      (set-IsClean c.name _ out p.0.0 (capability_entry-IsClean routing settings c p.0 r s) d)

IsPlain-names : All IsPlain provider_names
IsPlain-names = ground arith

plain_rows : All IsPlainRow capability_settings
plain_rows = ground arith

dump_provider_settings-IsClean : (config : Config) → IsClean (dump_provider_settings config true)
unfolding dump_provider_settings
dump_provider_settings-IsClean config =
    dump_providers-IsClean config provider_names end IsPlain-names tt

given_or_dumped-IsClean :
    (config : Config) → IsClean (given_or_dumped config (some (dump_provider_settings config true)))
unfolding given_or_dumped dump_providers
given_or_dumped-IsClean config = dump_provider_settings-IsClean config

dump_capability_settings-IsClean :
    (config : Config)
    → IsClean config.routing
    → IsClean (dump_capability_settings config (some (dump_provider_settings config true)))
unfolding dump_capability_settings
dump_capability_settings-IsClean config hr =
    dump_capabilities-IsClean config.routing
      (given_or_dumped config (some (dump_provider_settings config true))) capability_settings end
      plain_rows hr (given_or_dumped-IsClean config) tt

-- With `redact_secrets`, the dump of the settings holds under the keys api_key, access_key_id and
-- secret_access_key, at every depth, nothing or "<redacted>", provided that the dumps of the cache, routing
-- and health sections do. Secrets under other keys are not covered.
pub dump_settings_hides_secrets :
    (config : Config)
    → Conceals IsRedacted config.cache
    → ConcealsFields IsRedacted config.routing
    → Conceals IsRedacted config.health
    → Conceals IsRedacted (obj (dump_settings config true))
unfolding dump_settings
dump_settings_hides_secrets config hc hr hh = (
  tt,
  (
    hc,
    (
      hr,
      (
        hh,
        (dump_capability_settings-IsClean config hr, (dump_provider_settings-IsClean config, tt)),
      ),
    ),
  ),
)
