-- ===== src/Agent/Analysis/Health.antt =====
-- llm-ops-agent/internal/analysis/service.go: summarizeHealth and heuristicDiagnosis.
use x_scope_hub_svc_plus.Prelude.{
  ℕ, Bool, not, ◌&&◌, ◌||◌, Option, none, some, List, [], ◌∷◌, ◌++◌, is_empty, length, ltb, leb,
  if◌then◌else◌,
}
use x_scope_hub_svc_plus.Prelude.Text.{Text, codes, text_eq}
use x_scope_hub_svc_plus.Agent.Numbers.{decimal}
use x_scope_hub_svc_plus.Agent.Analysis.{
  Request, Evidence, EvidenceSet, HealthSummary, Diagnosis, propose_remediation, get_topology,
}

abbrev pub healthy : Text
healthy = codes "healthy"

abbrev pub degraded : Text
degraded = codes "degraded"

abbrev pub critical : Text
critical = codes "critical"

-- A text with a number in it.
unfoldable pub counted : Text → ℕ → Text → Text
unfolding decimal
counted before n after = before ++ decimal n ++ after

-- The line about a metric, where the map has it without an error.
unfoldable pub metric_line : Text → Option Evidence → List Text
unfolding counted
metric_line name none = []
metric_line name (some e) =
    if is_empty e.error then counted name e.count (codes " result set(s)") ∷ [] else []

unfoldable pub line_if : Bool → Text → List Text
line_if holds line = if holds then line ∷ [] else []

unfoldable pub highlight_lines : EvidenceSet → ℕ → List Text
unfolding metric_line counted line_if
highlight_lines es failures =
    metric_line (codes "error-rate series returned ") es.metrics.error_rate
    ++ metric_line (codes "latency p95 series returned ") es.metrics.latency_p95
    ++ line_if (is_empty es.logs.error)
        (counted (codes "log evidence captured ") es.logs.count (codes " record(s)"))
    ++ line_if (is_empty es.traces.error)
        (counted (codes "trace evidence captured ") es.traces.count (codes " record(s)"))
    ++ line_if (is_empty es.topology.error && ltb 0 es.topology.count)
        (counted (codes "topology evidence captured ") es.topology.count (codes " record(s)"))
    ++ line_if (ltb 0 failures) (counted [] failures (codes " evidence source(s) returned errors"))

unfoldable pub status_of : ℕ → ℕ → ℕ → Text
status_of log_count trace_count failures =
    if leb 25 log_count || leb 10 trace_count
    then critical
    else if ltb 0 log_count || ltb 0 trace_count || ltb 0 failures
    then degraded
    else healthy

unfoldable pub summarize_health : EvidenceSet → List Text → HealthSummary
unfolding highlight_lines status_of
summarize_health es errs =
    let lines = highlight_lines es (length errs) in
    record {
      status = status_of es.logs.count es.traces.count (length errs);
      highlights =
          if is_empty lines then codes "no evidence returned from upstream sources" ∷ [] else lines;
    }

unfoldable pub summary_of : Request → HealthSummary → Text
summary_of req health =
    let summary : Text =
      codes "Service "
      ++ req.service
      ++ codes " is "
      ++ health.status
      ++ codes " in the selected time window." in
    if is_empty req.incident
    then summary
    else summary ++ codes " Incident context: " ++ req.incident ++ codes "."

unfoldable pub causes : EvidenceSet → List Text
unfolding line_if
causes es =
    codes
        "Investigate recent deployments, config changes, or dependency instability affecting the service."
      ∷ line_if (ltb 0 es.logs.count) (
          codes
            "Application errors are visible in logs and should be clustered by exception or upstream dependency.")
    ++ line_if (ltb 0 es.traces.count) (
        codes
          "Failing traces suggest request-path regressions or downstream latency amplification.")

unfoldable pub remediation_for : Text → List Text
unfolding line_if text_eq
remediation_for goal =
    if text_eq goal get_topology
    then codes
        "Inspect topology evidence to identify the dominant downstream dependencies and retry/error hotspots."
      ∷ []
    else codes
        "Compare the impacted window against the previous healthy period using the same templates."
      ∷ codes
          "Correlate failing requests with the latest deploy, feature flag, or infrastructure change."
      ∷ line_if (text_eq goal propose_remediation) (
          codes
            "Prepare a rollback or traffic-shift plan before applying risky changes in production.")

abbrev pub fallback_line : Text
fallback_line = codes "Reasoner fallback was used because Codex did not produce a valid response."

-- The confidence 0.42 is an argument.
module _ {Float : Type 0} (confidence : Float) where
  unfoldable pub heuristic_diagnosis :
      Request → HealthSummary → EvidenceSet → List Text → Diagnosis Float
  unfolding summary_of causes remediation_for line_if
  heuristic_diagnosis req health es errs = record {
    summary = summary_of req health;
    likely_causes = causes es;
    evidence = health.highlights ++ line_if (not (is_empty errs)) fallback_line;
    remediation = remediation_for req.goal;
    confidence = confidence;
    source = codes "heuristic-fallback";
  }
