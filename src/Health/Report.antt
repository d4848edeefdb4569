-- ===== src/Health/Report.antt =====
-- What the results of the probes and the report over them say (src/health/service.py, models.py).
use finpipe.Base.{
  ◌≡◌, refl, ◌∙◌, ap, ◌⊎◌, inl, inr, Bool, true, false, not, ◌&&◌, ◌||◌, Option, none, some, List,
  [], ◌∷◌, map, String, str_eq, eq_iff, Dict, lookup, insert, lookup-insert, contains, all, arith,
  if◌then◌else◌,
}
use finpipe.Errors.{Result, ok, raise}
use finpipe.Health.Registry.{default_probe_keys, resolve_probe_keys}
use finpipe.Health.Models.{
  ProbeStatus, connected, degraded, unconfigured, error, disabled, skipped, ProbeResult,
  is_connected, is_actionable, is_failure, actionable, report_ok, has_errors, report_http_status,
  collect,
}
use finpipe.Health.Selection.{is_selected, contains-resolve_probe_keys}
use finpipe.Health.Service.{Client, run_probe, outcome, check, check_all}
use finpipe.Health.Verdict

-- A status that counts is a failure or a success.
status_split :
    (st : ProbeStatus)
    → (is_actionable st ≡ false × (is_failure st ≡ false))
      ⊎ ((is_actionable st ≡ true) × (is_failure st ≡ not (is_connected st)))
status_split connected = inr (refl, refl)
status_split degraded = inr (refl, refl)
status_split unconfigured = inl (refl, refl)
status_split error = inr (refl, refl)
status_split disabled = inl (refl, refl)
status_split skipped = inl (refl, refl)

connected_first : (c a b : Bool) → a ≡ not b → (c && a) ≡ not (not c || b)
connected_first true a b h = h
connected_first false a b h = refl

all-actionable :
    (results : Dict ProbeResult)
    → all (λ r. is_connected r.status) (actionable results) ≡ not (has_errors results)
unfolding has_errors
all-actionable [] = refl
all-actionable ((key, r) ∷ results) = elim (status_split r.status) [
  | inl (quiet, fine) ↦ rw (quiet, fine) (all-actionable results)
  | inr (counts, fails) ↦
      rw (counts, fails) (connected_first (is_connected r.status) _ _ (all-actionable results))
]

report_ok-all :
    (rs : List ProbeResult)
    → (elim rs as (λ _. Bool) [
      | [] ↦ true
      | r ∷ rest ↦ all (λ r. is_connected r.status) (r ∷ rest)
    ])
      ≡ all (λ r. is_connected r.status) rs
report_ok-all [] = refl
report_ok-all (r ∷ rs) = refl

report_status :
    (results : Dict ProbeResult)
    → report_ok results ≡ not (has_errors results)
    → report_http_status results ≡ (if has_errors results then 503 else 200)
unfolding report_http_status
report_status results e = ground arith

-- The report is ok exactly when it has no errors, whatever probes were skipped, disabled or not
-- configured; its HTTP status is 503 if it has errors and else 200.
report_ok-not_errors :
    (results : Dict ProbeResult)
    → (report_ok results ≡ not (has_errors results))
      × (report_http_status results ≡ (if has_errors results then 503 else 200))
unfolding report_ok
report_ok-not_errors results = (ok_eq, status_eq)
  where
    ok_eq : report_ok results ≡ not (has_errors results)
    ok_eq = report_ok-all (actionable results) ∙ all-actionable results

    status_eq : report_http_status results ≡ (if has_errors results then 503 else 200)
    status_eq = report_status results ok_eq

outcome-key : (key : String) (r : Result (Option String)) → (outcome key r).key ≡ key
outcome-key key (ok none) = refl
outcome-key key (ok (some m)) = refl
outcome-key key (raise e) = ground arith

check-key : (client : Client) (key : String) → (check client key).key ≡ key
unfolding check
check-key client key = ground (arith, outcome-key key (run_probe client key))

collect_step :
    (client : Client) (key k : String) (same later : Bool) (old : Option ProbeResult)
    → str_eq k key ≡ same
    → (if later then some (check client key) else (if same then some (check client k) else old))
      ≡ (if same || later then some (check client key) else old)
collect_step client key k true true old e = refl
collect_step client key k true false old e = ap (λ x. some (check client x)) ((eq_iff k key).0 e)
collect_step client key k false later old e = refl

lookup-collect :
    (client : Client) (key : String) (keys : List String) (out : Dict ProbeResult)
    → lookup key (collect (map (check client) keys) out)
      ≡ (if contains key keys then some (check client key) else lookup key out)
unfolding collect
lookup-collect client key [] out = refl
lookup-collect client key (k ∷ keys) out =
    ap (λ j. lookup key (collect (map (check client) keys) (insert j (check client k) out)))
      (check-key client k)
    ∙ lookup-collect client key keys (insert k (check client k) out)
    ∙ ap (λ o. if contains key keys then some (check client key) else o)
        (lookup-insert k key (check client k) out)
    ∙ collect_step client key k (str_eq k key) (contains key keys) (lookup key out) refl

check_all-collect :
    (client : Client)
    → check_all client ≡ collect (map (check client) (resolve_probe_keys client.config)) []
unfolding check_all collect
check_all-collect client = ground arith

-- A health check reports on exactly the selected probes, on each by its own result.
pub lookup-check_all :
    (client : Client) (key : String)
    → lookup key (check_all client) ≡ (
        if client.config.health.enabled
          && contains key default_probe_keys
          && is_selected client.config key
        then some (check client key)
        else none)
lookup-check_all client key =
    rw (check_all-collect client, lookup-collect client key (resolve_probe_keys client.config) [])
      (ap (λ b. if b then some (check client key) else none)
        (contains-resolve_probe_keys client.config key))
