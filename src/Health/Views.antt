-- ===== src/Health/Views.antt =====
-- The `to_dict` views of src/health/models.py: a result of a probe, and the report with its probes sorted by key.
use Prim.Native.Nat.{Ordering}
use Prim.Native.String.{compare}
use finpipe.Base.{
  ℕ, Bool, true, false, ◌⊎◌, Option, none, some, [], ◌∷◌, String, str_eq, Bool-cases, inl, inr,
  Dict, lookup, ◌≡◌, refl, sym, ap, ◌∙◌, arith,
}
use finpipe.Json.{Json, bool, num, str, obj, Fields, end, field, get}
use finpipe.Health.Models.{
  ProbeStatus, connected, degraded, unconfigured, error, disabled, skipped, ProbeResult, probe_ok,
  probe_http_status, all_connected, report_ok, report_http_status, has_errors,
}
use mathlib.Core.Option
use text.Mathlib.TextEquality.{eq_iff}
use text.Mathlib.TextPositions.{compare_refl}

abbrev status_text : ProbeStatus → String
status_text connected = "connected"
status_text degraded = "degraded"
status_text unconfigured = "unconfigured"
status_text error = "error"
status_text disabled = "disabled"
status_text skipped = "skipped"

abbrev status_number : ℕ → Json
status_number n = num (record { negative = false; digits = n; scale = 0 })

-- `if value is not None: payload[key] = value`, where the key is new
abbrev given : String → Option Json → Fields
given key none = end
given key (some value) = field key value end

abbrev message_or : Option String → Fields → Fields
message_or none rest = rest
message_or (some message) rest = field "message" (str message) rest

-- `ProbeResult.to_dict`, where the latency, rounded, is a measurement
unfoldable probe_to_dict : Option Json → ProbeResult → Fields
unfolding probe_ok probe_http_status
probe_to_dict latency r = field "key" (str r.key) (
    field "status" (str (status_text r.status)) (
      field "ok" (bool (probe_ok r)) (
        field "http_status" (status_number (probe_http_status r))
          (message_or r.message (given "latency_ms" latency)))))

-- `sorted(self.results.items())`, of a dict, whose keys differ
unfoldable insert_item : String → ProbeResult → Dict ProbeResult → Dict ProbeResult
insert_item key r [] = (key, r) ∷ []
insert_item key r ((j, q) ∷ results) = elim (compare key j) [
  | Ordering.gt ↦ (j, q) ∷ insert_item key r results
  | _ ↦ (key, r) ∷ (j, q) ∷ results
]

unfoldable sorted_items : Dict ProbeResult → Dict ProbeResult
unfolding insert_item
sorted_items [] = []
sorted_items ((key, r) ∷ results) = insert_item key r (sorted_items results)

module _ (latency : ProbeResult → Option Json) where
  abbrev probe_views : Dict ProbeResult → Fields
  probe_views [] = end
  probe_views ((key, r) ∷ results) =
      field key (obj (probe_to_dict (latency r) r)) (probe_views results)

  -- `HealthReport.to_dict`
  unfoldable report_to_dict : Dict ProbeResult → Fields
  unfolding report_ok report_http_status all_connected has_errors sorted_items
  report_to_dict results = field "ok" (bool (report_ok results)) (
      field "http_status" (status_number (report_http_status results)) (
        field "all_connected" (bool (all_connected results)) (
          field "has_errors" (bool (has_errors results))
            (field "probes" (obj (probe_views (sorted_items results))) end))))

  -- The view of a probe is found under its key.
  get-probe_views :
      (key : String) (results : Dict ProbeResult)
      → get key (probe_views results)
        ≡ Option.map (λ r. obj (probe_to_dict (latency r) r)) (lookup key results)
  get-probe_views key [] = refl
  get-probe_views key ((j, r) ∷ results) = elim (Bool-cases (str_eq j key)) [
    | inl e ↦ rw e refl
    | inr e ↦ rw e (get-probe_views key results)
  ]

abbrev is_after : Ordering → Bool
is_after Ordering.lt = false
is_after Ordering.eq = false
is_after Ordering.gt = true

apart : (key j : String) → compare key j ≡ Ordering.gt → str_eq j key ≡ false
apart key j h = elim (Bool-cases (str_eq j key)) [
  | inl e ↦
      let same : j ≡ key = (eq_iff j key).0 e in
      let equal : compare key j ≡ Ordering.eq = rw same (compare_refl key) in
      let wrong : true ≡ false = ap is_after (sym h ∙ equal) in absurd (ground arith)
  | inr e ↦ e
]

Ordering-cases : (o : Ordering) → (o ≡ Ordering.gt) ⊎ (o ≡ Ordering.lt) ⊎ (o ≡ Ordering.eq)
Ordering-cases Ordering.lt = inr (inl refl)
Ordering-cases Ordering.eq = inr (inr refl)
Ordering-cases Ordering.gt = inl refl

-- An item that is put in its place is found as one put in front.
lookup-insert_item :
    (k key : String) (r : ProbeResult) (results : Dict ProbeResult)
    → lookup k (insert_item key r results) ≡ lookup k ((key, r) ∷ results)
unfolding insert_item
lookup-insert_item k key r [] = refl
lookup-insert_item k key r ((j, q) ∷ results) = elim (Ordering-cases (compare key j)) [
  | inl e ↦
      rw (e, insert_item)
        (let rest = lookup-insert_item k key r results in
          let other = apart key j e in ground (arith, eq_iff j k, eq_iff key k, eq_iff j key))
  | inr (inl e) ↦ rw (e, insert_item) refl
  | inr (inr e) ↦ rw (e, insert_item) refl
]

-- Sorting keeps what is found under a key.
lookup-sorted_items :
    (k : String) (results : Dict ProbeResult) → lookup k (sorted_items results) ≡ lookup k results
unfolding sorted_items
lookup-sorted_items k [] = refl
lookup-sorted_items k ((key, r) ∷ results) = elim (Bool-cases (str_eq key k)) [
  | inl e ↦ lookup-insert_item k key r (sorted_items results) ∙ rw e refl
  | inr e ↦ lookup-insert_item k key r (sorted_items results) ∙ rw e (lookup-sorted_items k results)
]

-- The view of a report has, under `probes`, the view of each of its results at its key, and no other.
get-report_to_dict :
    (latency : ProbeResult → Option Json) (results : Dict ProbeResult) (key : String)
    → (get "probes" (report_to_dict latency results)
        ≡ some (obj (probe_views latency (sorted_items results))))
      × (get key (probe_views latency (sorted_items results))
          ≡ Option.map (λ r. obj (probe_to_dict (latency r) r)) (lookup key results))
unfolding report_to_dict
get-report_to_dict latency results key = (
  refl,
  get-probe_views latency key (sorted_items results)
      ∙ ap (Option.map (λ r. obj (probe_to_dict (latency r) r))) (lookup-sorted_items key results),
)
