-- ===== src/Agent/Analysis/Codex.antt =====
-- llm-ops-agent/internal/analysis/service.go: the reasoner that runs Codex, its prompt and the JSON
-- object in its output. The command is a function of its arguments, with the error and the output;
-- the environment, the directory and the timeout are left out. The format of times and the decoder of
-- the diagnosis are a record that the section takes.
pub mod Extract
use x_scope_hub_svc_plus.Prelude.{
  ℕ, Bool, true, false, not, ◌||◌, Option, none, some, List, [], ◌∷◌, ◌++◌, ◌==◌, map, is_empty,
  length, leb, take, if◌then◌else◌,
}
use x_scope_hub_svc_plus.Prelude.Text.{Text, codes, trim_space, join}
use x_scope_hub_svc_plus.Agent.Analysis.{
  Request, Evidence, EvidenceSet, HealthSummary, Diagnosis, ReasonerInput,
}
use x_scope_hub_svc_plus.Agent.Analysis.Normalize.{is_blank}
use x_scope_hub_svc_plus.Agent.Analysis.Gateway.{Outcome, got, failed}

unfoldable pub truncate_json : Text → ℕ → Text
truncate_json raw limit =
    if is_empty raw
    then codes "null"
    else if leb (length raw) limit
    then raw
    else take limit raw ++ codes "...(truncated)"

-- What a missing key of the map gives is the empty evidence.
abbrev result_of : Option Evidence → Text
result_of none = []
result_of (some e) = e.result

-- A heading, what stands under it, and an empty line.
abbrev under : Text → Text → Text → Text
under heading body rest = heading ++ codes ":\n" ++ body ++ codes "\n\n" ++ rest

abbrev line : Text → Text → Text → Text
line heading body rest = heading ++ codes ": " ++ body ++ codes "\n" ++ rest

unfoldable pub build_codex_prompt : (ℕ → Text) → ReasonerInput → Text
unfolding truncate_json join
build_codex_prompt rfc3339 input =
    let req = input.request in
    let es = input.evidence in
    codes "You are the monitoring analysis agent for XScopeHub.\n"
    ++ codes
        "Return JSON only with keys: summary, likely_causes, evidence, remediation, confidence.\n\n"
    ++ line (codes "Goal") req.goal (
        line (codes "Service") req.service (
          line (codes "Tenant") req.tenant (
            line (codes "Incident") req.incident (
              line (codes "Time window")
                (rfc3339 req.start
                  ++ codes " to "
                  ++ rfc3339 req.end
                  ++ codes " ("
                  ++ req.window
                  ++ codes ")")
                (line (codes "Health status") input.health.status (
                  under (codes "Health highlights")
                    (codes "- " ++ join (codes "\n- ") input.health.highlights)
                    (under (codes "Metrics error_rate")
                      (truncate_json (result_of es.metrics.error_rate) 3000)
                      (under (codes "Metrics latency_p95")
                        (truncate_json (result_of es.metrics.latency_p95) 3000)
                        (under (codes "Logs") (truncate_json es.logs.result 3000) (
                          under (codes "Traces") (truncate_json es.traces.result 3000) (
                            under (codes "Topology") (truncate_json es.topology.result 3000) (
                              codes "Additional operator prompt:\n"
                              ++ req.prompt
                              ++ codes "\n"))))))))))))

-- The text from the first `{` on, if there is one.
unfoldable pub from_open : Text → Option Text
from_open [] = none
from_open (c ∷ s) = if c == b'{' then some (c ∷ s) else from_open s

-- The text up to the last `}`, if there is one.
unfoldable pub up_to_close : Text → Option Text
up_to_close [] = none
up_to_close (c ∷ s) = elim (up_to_close s) [
  | some t ↦ some (c ∷ t)
  | none ↦ if c == b'}' then some (c ∷ []) else none
]

-- text[start : end+1], where the first `{` stands before the last `}`
unfoldable pub extract_json_object : Text → Outcome Text
unfolding from_open up_to_close
extract_json_object raw =
    let missing : Outcome Text = failed (codes "no json object found in codex output") in
    elim (from_open (trim_space raw)) [
      | none ↦ missing
      | some s ↦ elim (up_to_close s) [ none ↦ missing | some t ↦ got t ]
    ]

pub record CodexDiagnosis (Float : Type 0) : Type 0 where
  pub summary : Text
  pub likely_causes : List Text
  pub evidence : List Text
  pub remediation : List Text
  pub confidence : Float

pub record Tools (Float : Type 0) : Type 0 where
  pub rfc3339 : ℕ → Text
  pub run_command : List Text → Option Text × Text  -- the error of the command, and its output
  pub decode_diagnosis : Text → Outcome (CodexDiagnosis Float)

module _ {Float : Type 0} (tools : Tools Float) where
  -- The diagnosis in the output of the command.
  unfoldable pub read_output : Text → Outcome (Diagnosis Float)
  unfolding extract_json_object
  read_output output = elim (extract_json_object output) [
    | failed e ↦ failed e
    | got payload ↦ elim (tools.decode_diagnosis payload) [
      | failed e ↦ failed (codes "parse codex response: " ++ e)
      | got parsed ↦
          if is_blank parsed.summary
          then failed (codes "codex response missing summary")
          else got (record {
            summary = parsed.summary;
            likely_causes = parsed.likely_causes;
            evidence = parsed.evidence;
            remediation = parsed.remediation;
            confidence = parsed.confidence;
            source = codes "codex";
          })
    ]
  ]

  unfoldable pub analyze : List Text → ReasonerInput → Outcome (Diagnosis Float)
  unfolding build_codex_prompt read_output
  analyze args input =
      let (err, output) = tools.run_command (args ++ build_codex_prompt tools.rfc3339 input ∷ []) in
      elim err [
        | some e ↦
            if is_blank output then failed e else failed (e ++ codes ": " ++ trim_space output)
        | none ↦ read_output output
      ]
