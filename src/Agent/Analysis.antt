-- ===== src/Agent/Analysis.antt =====
-- llm-ops-agent/internal/analysis/types.go and the types of service.go.
-- A time is a number of nanoseconds, 0 the zero time. A raw JSON message is its bytes, and a float64
-- is a value of a type that the sections take.
pub mod Normalize
pub mod Count
pub mod Gateway
pub mod Collect
pub mod Health
pub mod Codex
pub mod Run
pub mod Http
mod Tests
use x_scope_hub_svc_plus.Prelude.{ℕ, Bool, Option, List}
use x_scope_hub_svc_plus.Prelude.Text.{Text, codes}
use x_scope_hub_svc_plus.Prelude.Time.{Duration}

-- The goals, which are strings in the code.
abbrev pub analyze_incident : Text
analyze_incident = codes "analyze_incident"

abbrev pub propose_remediation : Text
propose_remediation = codes "propose_remediation"

abbrev pub get_topology : Text
get_topology = codes "get_topology"

pub record Request : Type 0 where
  pub goal : Text
  pub tenant : Text
  pub user : Text
  pub service : Text
  pub incident : Text
  pub window : Text
  pub start : ℕ
  pub end : ℕ
  pub max_items : ℕ  -- a negative number is 0, which the code treats alike
  pub prompt : Text

pub record TimeWindow : Type 0 where
  pub start : ℕ
  pub end : ℕ
  pub window : Text

pub record HealthSummary : Type 0 where
  pub status : Text
  pub highlights : List Text

pub record Evidence : Type 0 where
  pub template : Text
  pub lang : Text
  pub backend : Text
  pub cached : Bool
  pub count : ℕ
  pub result : Text
  pub error : Text

-- The map has these two keys at most.
pub record Metrics : Type 0 where
  pub error_rate : Option Evidence
  pub latency_p95 : Option Evidence

pub record EvidenceSet : Type 0 where
  pub metrics : Metrics
  pub logs : Evidence
  pub traces : Evidence
  pub topology : Evidence

pub record Diagnosis (Float : Type 0) : Type 0 where
  pub summary : Text
  pub likely_causes : List Text
  pub evidence : List Text
  pub remediation : List Text
  pub confidence : Float
  pub source : Text

pub record Meta : Type 0 where
  pub reasoner : Text
  pub reasoner_status : Text
  pub errors : List Text

pub record Response (Float : Type 0) : Type 0 where
  pub goal : Text
  pub tenant : Text
  pub user : Text
  pub service : Text
  pub incident : Text
  pub time_window : TimeWindow
  pub health : HealthSummary
  pub evidence : EvidenceSet
  pub diagnosis : Diagnosis Float
  pub meta : Meta

pub record ReasonerInput : Type 0 where
  pub request : Request
  pub health : HealthSummary
  pub evidence : EvidenceSet

pub record Defaults : Type 0 where
  pub default_tenant : Text
  pub default_user : Text
  pub default_window : Duration
  pub max_items : ℕ
