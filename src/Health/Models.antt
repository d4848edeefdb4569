-- ===== src/Health/Models.antt =====
-- src/health/models.py: the result of a probe, and the report over all of them.
use finpipe.Base.{
  ℕ, Bool, true, false, Option, List, [], ◌∷◌, String, Dict, insert, any, all, filter,
  if◌then◌else◌,
}

pub data ProbeStatus : Type 0 where
  connected degraded unconfigured error disabled skipped : ProbeStatus

-- `_PROBE_HTTP_STATUS`
abbrev pub status_code : ProbeStatus → ℕ
status_code connected = 200
status_code degraded = 503
status_code error = 503
status_code unconfigured = 501
status_code disabled = 204
status_code skipped = 204

-- The latency is a measurement: it is not modelled.
pub record ProbeResult : Type 0 where
  pub key : String
  pub status : ProbeStatus
  pub message : Option String

abbrev pub is_connected : ProbeStatus → Bool
is_connected connected = true
is_connected _ = false

-- `status in ("error", "degraded")`
abbrev pub is_failure : ProbeStatus → Bool
is_failure error = true
is_failure degraded = true
is_failure _ = false

-- `status not in ("skipped", "disabled", "unconfigured")`
abbrev pub is_actionable : ProbeStatus → Bool
is_actionable skipped = false
is_actionable disabled = false
is_actionable unconfigured = false
is_actionable _ = true

-- `ProbeResult.ok` and `ProbeResult.http_status`
unfoldable pub probe_ok : ProbeResult → Bool
probe_ok r = is_connected r.status

unfoldable pub probe_http_status : ProbeResult → ℕ
probe_http_status r = status_code r.status

-- `HealthReport.results.values()`, in the order of the dict
abbrev pub values : Dict ProbeResult → List ProbeResult
values [] = []
values ((key, r) ∷ results) = r ∷ values results

unfoldable pub all_connected : Dict ProbeResult → Bool
all_connected results = all (λ r. is_connected r.status) (values results)

-- the list `actionable` of `HealthReport.ok`
abbrev pub actionable : Dict ProbeResult → List ProbeResult
actionable results = filter (λ r. is_actionable r.status) (values results)

unfoldable pub report_ok : Dict ProbeResult → Bool
report_ok results = elim (actionable results) [
  | [] ↦ true
  | r ∷ rs ↦ all (λ r. is_connected r.status) (r ∷ rs)
]

unfoldable pub report_http_status : Dict ProbeResult → ℕ
unfolding report_ok
report_http_status results = if report_ok results then 200 else 503

unfoldable pub has_errors : Dict ProbeResult → Bool
has_errors results = any (λ r. is_failure r.status) (values results)

-- `{result.key: result for result in results}`
unfoldable pub collect : List ProbeResult → Dict ProbeResult → Dict ProbeResult
collect [] results = results
collect (r ∷ rs) results = collect rs (insert r.key r results)
