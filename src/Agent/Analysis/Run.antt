-- ===== src/Agent/Analysis/Run.antt =====
-- llm-ops-agent/internal/analysis/service.go: Run.
pub mod Order
pub mod Healthy
pub mod Accepted
use mathlib.Core.Option.{map}
use x_scope_hub_svc_plus.Prelude.{
  ℕ, Bool, true, false, Option, none, some, List, [], ◌∷◌, ◌++◌, is_empty, if◌then◌else◌,
}
use x_scope_hub_svc_plus.Prelude.Text.{Text, codes}
use x_scope_hub_svc_plus.Agent.Analysis.{
  Request, Response, Diagnosis, ReasonerInput, EvidenceSet, HealthSummary, Defaults,
}
use x_scope_hub_svc_plus.Agent.Analysis.Normalize.{Clock, is_blank, normalize_request}
use x_scope_hub_svc_plus.Agent.Analysis.Gateway.{
  GatewayClient, Outcome, got, failed, HttpPost, Sent, Wire,
}
use x_scope_hub_svc_plus.Agent.Analysis.Collect.{Source, Collected, collect_evidence}
use x_scope_hub_svc_plus.Agent.Analysis.Health.{summarize_health, heuristic_diagnosis}

pub record Verdict (Float : Type 0) : Type 0 where
  pub diagnosis : Diagnosis Float
  pub status : Text
  pub errs : List Text

pub record Service (Float : Type 0) : Type 0 where
  pub clock : Clock
  pub wire : Wire
  pub gateway : GatewayClient
  pub defaults : Defaults
  pub reasoner : Option (ReasonerInput → Outcome (Diagnosis Float))
  pub confidence : Float  -- 0.42

module _ {Float : Type 0} where
  -- The diagnosis that the reasoner answers, if there is one and it does, or else the fallback.
  unfoldable pub verdict :
      Option (Outcome (Diagnosis Float)) → Diagnosis Float → List Text → Verdict Float
  verdict none fallback errs = record {
    diagnosis = fallback;
    status = codes "fallback";
    errs = errs;
  }
  verdict (some (got d)) fallback errs = record {
    diagnosis = d;
    status = codes "completed";
    errs = errs;
  }
  verdict (some (failed e)) fallback errs = record {
    diagnosis = fallback;
    status = codes "fallback";
    errs = errs ++ (codes "reasoner: " ++ e) ∷ [];
  }

  unfoldable pub diagnose : Service Float → ReasonerInput → List Text → Verdict Float
  unfolding heuristic_diagnosis verdict
  diagnose s input errs =
      verdict (map (λ reason. reason input) s.reasoner)
        (heuristic_diagnosis s.confidence input.request input.health input.evidence errs) errs

  -- What is answered to a normalised request with its health and its evidence.
  unfoldable pub answer : Service Float → ReasonerInput → List Text → Response Float
  unfolding diagnose
  answer s input errs =
      let req = input.request in
      let judged = diagnose s input errs in
      record {
        goal = req.goal;
        tenant = req.tenant;
        user = req.user;
        service = req.service;
        incident = req.incident;
        time_window = record { start = req.start; end = req.end; window = req.window };
        health = input.health;
        evidence = input.evidence;
        diagnosis = judged.diagnosis;
        meta = record {
          reasoner = judged.diagnosis.source;
          reasoner_status = judged.status;
          errors = judged.errs;
        };
      }

  unfoldable pub respond : Service Float → Request → Collected → Response Float
  unfolding summarize_health answer
  respond s req c =
      answer s
        (record {
          request = req;
          health = summarize_health c.evidence c.errs;
          evidence = c.evidence;
        })
        c.errs

  -- The time now, what the gateway answers and the order in which the answers come are arguments.
  unfoldable pub run :
      Service Float → ℕ → (HttpPost → Sent) → List Source → Request → Outcome (Response Float)
  unfolding normalize_request collect_evidence respond
  run s now send order request =
      let req = normalize_request s.clock s.defaults now request in
      if is_blank req.service
      then failed (codes "service is required")
      else got (respond s req (collect_evidence s.wire send s.gateway req order))
