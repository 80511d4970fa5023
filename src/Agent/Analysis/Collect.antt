-- ===== src/Agent/Analysis/Collect.antt =====
-- llm-ops-agent/internal/analysis/service.go: queryTemplate, estimateCount and collectEvidence.
-- The five queries run at the same time; the order in which their results arrive is a list.
use x_scope_hub_svc_plus.Prelude.{
  ℕ, false, Option, none, some, List, [], ◌∷◌, ◌++◌, is_empty, if◌then◌else◌,
}
use x_scope_hub_svc_plus.Prelude.Text.{Text, codes}
use x_scope_hub_svc_plus.Agent.Analysis.{Request, Evidence, EvidenceSet}
use x_scope_hub_svc_plus.Agent.Analysis.Count.{count_any}
use x_scope_hub_svc_plus.Agent.Analysis.Gateway.{
  GatewayClient, QueryRequest, got, failed, HttpPost, Sent, Wire, query,
}

-- The five goroutines.
pub data Source : Type 0 where
  metric_error_rate metric_latency_p95 logs traces topology : Source

abbrev pub sources : List Source
sources = metric_error_rate ∷ metric_latency_p95 ∷ logs ∷ traces ∷ topology ∷ []

abbrev pub key_of : Source → Text
key_of metric_error_rate = codes "metric_error_rate"
key_of metric_latency_p95 = codes "metric_latency_p95"
key_of logs = codes "logs"
key_of traces = codes "traces"
key_of topology = codes "topology"

abbrev pub template_of : Source → Text
template_of metric_error_rate = codes "service_error_rate"
template_of metric_latency_p95 = codes "service_latency_p95"
template_of logs = codes "service_error_logs"
template_of traces = codes "service_error_traces"
template_of topology = codes "service_topology_logs"

abbrev pub lang_of : Source → Text
lang_of metric_error_rate = codes "promql"
lang_of metric_latency_p95 = codes "promql"
lang_of logs = codes "logql"
lang_of traces = codes "traceql"
lang_of topology = codes "logql"

abbrev pub no_evidence : Source → Evidence
no_evidence s = record {
  template = template_of s;
  lang = lang_of s;
  backend = [];
  cached = false;
  count = 0;
  result = [];
  error = [];
}

pub record Arrival : Type 0 where
  pub evidence : Evidence
  pub err : Option Text

pub record Collected : Type 0 where
  pub evidence : EvidenceSet
  pub errs : List Text

unfoldable pub template_request : Request → Source → QueryRequest
template_request req s = record {
  template = template_of s;
  variables = (codes "service", req.service) ∷ (codes "window", req.window) ∷ [];
  start = req.start;
  end = req.end;
}

module _ (wire : Wire) where
  unfoldable pub estimate_count : Text → ℕ
  estimate_count raw =
      if is_empty raw
      then 0
      else elim (wire.unmarshal raw) [ none ↦ 0 | some payload ↦ count_any payload ]

  unfoldable pub query_template : (HttpPost → Sent) → GatewayClient → Request → Source → Arrival
  unfolding template_request estimate_count query
  query_template send client req s =
      elim (query wire send client req.tenant req.user (template_request req s)) [
        | failed e ↦ record { evidence = no_evidence s; err = some e }
        | got resp ↦ record {
          evidence = record {
            template = template_of s;
            lang = resp.lang;
            backend = resp.backend;
            cached = resp.cached;
            count = estimate_count resp.result;
            result = resp.result;
            error = [];
          };
          err = none;
        }
      ]

-- The evidence with its error.
unfoldable pub settled : Arrival → Evidence
settled a = elim a.err [
  | none ↦ a.evidence
  | some e ↦ record {
    template = a.evidence.template;
    lang = a.evidence.lang;
    backend = a.evidence.backend;
    cached = a.evidence.cached;
    count = a.evidence.count;
    result = a.evidence.result;
    error = e;
  }
]

unfoldable pub with_error : Source → Option Text → List Text → List Text
with_error s none errs = errs
with_error s (some e) errs = errs ++ (key_of s ++ codes ": " ++ e) ∷ []

-- The switch over the key of a result.
unfoldable pub put : Source → Evidence → EvidenceSet → EvidenceSet
put metric_error_rate e es = record {
  metrics = record { error_rate = some e; latency_p95 = es.metrics.latency_p95 };
  logs = es.logs;
  traces = es.traces;
  topology = es.topology;
}
put metric_latency_p95 e es = record {
  metrics = record { error_rate = es.metrics.error_rate; latency_p95 = some e };
  logs = es.logs;
  traces = es.traces;
  topology = es.topology;
}
put logs e es = record {
  metrics = es.metrics;
  logs = e;
  traces = es.traces;
  topology = es.topology;
}
put traces e es = record {
  metrics = es.metrics;
  logs = es.logs;
  traces = e;
  topology = es.topology;
}
put topology e es = record {
  metrics = es.metrics;
  logs = es.logs;
  traces = es.traces;
  topology = e;
}

-- The loop over the results.
unfoldable pub collect : (Source → Arrival) → List Source → Collected → Collected
unfolding settled with_error put
collect arrive [] c = c
collect arrive (s ∷ order) c = collect arrive order (record {
  evidence = put s (settled (arrive s)) c.evidence;
  errs = with_error s (arrive s).err c.errs;
})

abbrev pub nothing : Collected
nothing = record {
  evidence = record {
    metrics = record { error_rate = none; latency_p95 = none };
    logs = no_evidence logs;
    traces = no_evidence traces;
    topology = no_evidence topology;
  };
  errs = [];
}

module _ (wire : Wire) where
  unfoldable pub collect_evidence :
      (HttpPost → Sent) → GatewayClient → Request → List Source → Collected
  unfolding query_template collect
  collect_evidence send client req order =
      collect (query_template wire send client req) order nothing
