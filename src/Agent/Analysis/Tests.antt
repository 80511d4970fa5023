-- ===== src/Agent/Analysis/Tests.antt =====
-- An analysis of one service, and the theorems at it.
use mathlib.Core.List.{Permᴰ}
use x_scope_hub_svc_plus.Prelude.{
  ℕ, ◌+◌, ◌*◌, ◌≡◌, ◌≢◌, ◌⊎◌, refl, false, none, some, List, [], ◌∷◌, ◌++◌, All, arith,
}
use x_scope_hub_svc_plus.Prelude.Text.{
  Text, codes, text_eq, trim_space, trim, trim_left, trim_right, is_space,
}
use x_scope_hub_svc_plus.Prelude.Time.{Duration, before, is_positive, one_hour}
use x_scope_hub_svc_plus.Gateway.Query.Handler.{validate}
use x_scope_hub_svc_plus.Agent.Analysis.{Request, Response, Defaults}
use x_scope_hub_svc_plus.Agent.Analysis.Normalize.{
  Clock, new_defaults, is_blank, start_and_window, normalize_request,
}
use x_scope_hub_svc_plus.Agent.Analysis.Normalize.Idempotent.{normalize_request-idempotent}
use x_scope_hub_svc_plus.Agent.Analysis.Count.{
  Json, array, object, null, no_items, item, no_members, member, count_any, object_count,
  counts_under, count_under, first_positive,
}
use x_scope_hub_svc_plus.Agent.Analysis.Gateway.{
  GatewayClient, new_gateway_client, has_suffix, got, failed, HttpPost, Sent, replied, Wire, query,
  read_reply,
}
use x_scope_hub_svc_plus.Agent.Analysis.Collect.{
  Source, metric_error_rate, metric_latency_p95, logs, traces, topology, lang_of, sources,
  query_template, estimate_count, settled, with_error, put, collect, collect_evidence,
}
use x_scope_hub_svc_plus.Agent.Analysis.Health.{healthy, status_of, summarize_health}
use x_scope_hub_svc_plus.Agent.Analysis.Codex.{extract_json_object}
use x_scope_hub_svc_plus.Agent.Analysis.Codex.Extract.{extract_json_object-around}
use x_scope_hub_svc_plus.Agent.Analysis.Run.{Service, answer, respond, run}
use x_scope_hub_svc_plus.Agent.Analysis.Run.Order.{IsAlike, run-order}
use x_scope_hub_svc_plus.Agent.Analysis.Run.Healthy.{IsAnswered, run-healthy}
use x_scope_hub_svc_plus.Agent.Analysis.Run.Accepted.{asked, asked-accepted}

abbrev clock : Clock
clock = record {
  parse_duration = λ s. none;
  duration_text = λ d. codes "1h0m0s";
  round_to_minute = λ d. d;
}

abbrev hour : Duration
hour = record { is_negative = false; size = one_hour }

abbrev gateway : GatewayClient
gateway = record {
  endpoint = codes "http://gateway/api/query";
  headers = [];
  tenant_header = codes "X-Tenant";
  user_header = codes "X-User";
}

-- The gateway's answers have no records.
abbrev wire : Wire
wire = record {
  marshal = λ q. got q.template;
  url_error = λ url. none;
  canonical = λ name. name;
  error_member = λ body. none;
  decode_response =
      λ body. got (record { lang = codes "promql"; result = body; backend = []; cached = false });
  unmarshal = λ raw. some (array no_items);
}

abbrev service : Service ℕ
service = record {
  clock = clock;
  wire = wire;
  gateway = gateway;
  defaults = record {
    default_tenant = codes "acme";
    default_user = [];
    default_window = hour;
    max_items = 50;
  };
  reasoner = none;
  confidence = 42;
}

abbrev quiet : HttpPost → Sent
quiet post = replied 200 (codes "[]")

abbrev request : Request
request = record {
  goal = [];
  tenant = [];
  user = [];
  service = codes "api";
  incident = [];
  window = [];
  start = 0;
  end = 0;
  max_items = 0;
  prompt = [];
}

abbrev noon : ℕ
noon = 12 * one_hour

abbrev normalised : Request
normalised = normalize_request clock service.defaults noon request

abbrev other_order : List Source
other_order = metric_latency_p95 ∷ metric_error_rate ∷ logs ∷ traces ∷ topology ∷ []

run-order_example :
    ((e : Text) × (run service noon quiet sources request ≡ failed e)
      × (run service noon quiet other_order request ≡ failed e))
    ⊎ ((r : Response ℕ) × (q : Response ℕ) × (run service noon quiet sources request ≡ got r)
        × (run service noon quiet other_order request ≡ got q)
        × IsAlike r q)
run-order_example = run-order service noon quiet sources other_order request (Permᴰ.swap refl refl)

abbrev response : Response ℕ
response = respond service normalised (collect_evidence wire quiet gateway normalised sources)

answers : run service noon quiet sources request ≡ got response
unfolding run normalize_request trim_space trim trim_left trim_right
answers = refl

reports_healthy : response.health.status ≡ healthy
unfolding respond answer summarize_health status_of collect_evidence collect query_template query
    read_reply estimate_count count_any put settled with_error
reports_healthy = refl

run-healthy_example :
    All (IsAnswered wire quiet gateway normalised) sources
    × (response.evidence.logs.count ≡ 0)
    × (response.evidence.traces.count ≡ 0)
run-healthy_example =
    run-healthy service noon quiet sources request response answers reports_healthy

extract_json_object-around_example :
    extract_json_object (codes "ok " ++ b'{' ∷ (codes "{}" ++ b'}' ∷ codes " bye"))
    ≡ got (b'{' ∷ (codes "{}" ++ b'}' ∷ []))
extract_json_object-around_example =
    extract_json_object-around (codes "ok ") (codes "{}") (codes " bye") (ground arith)
      (ground arith)

prints : (d : Duration) → is_blank (clock.duration_text d) ≡ false
unfolding trim_space trim trim_left trim_right is_space
prints d = refl

abbrev options : Defaults
options = new_defaults (codes "acme") [] hour 0

starts : (normalize_request clock options noon request).start ≢ 0
unfolding normalize_request new_defaults start_and_window trim_space trim trim_left trim_right
    before is_positive
starts = ground arith

normalize_request-idempotent_example :
    normalize_request clock options (noon + one_hour) (normalize_request clock options noon request)
    ≡ normalize_request clock options noon request
normalize_request-idempotent_example =
    normalize_request-idempotent clock (codes "acme") [] hour 0 noon (noon + one_hour) request
      prints (ground arith) starts

abbrev ten : ℕ
ten = 10

abbrev timed : Request
timed = record request { start = one_hour; end = noon }

asked-accepted_example :
    ((asked ten timed traces).lang ≡ lang_of traces) × (validate (asked ten timed traces) ≡ none)
asked-accepted_example = asked-accepted ten timed traces (ground arith) (ground arith)

-- Where no well-known key has records, the count depends on the order of the keys.
abbrev in_order : Json
in_order = object (
    member (codes "a") (array (item null no_items))
      (member (codes "b") (array (item null (item null no_items))) no_members))

abbrev reversed : Json
reversed = object (
    member (codes "b") (array (item null (item null no_items)))
      (member (codes "a") (array (item null no_items)) no_members))

counts : (count_any in_order ≡ 1) × (count_any reversed ≡ 2)
unfolding count_any object_count counts_under count_under first_positive text_eq
counts = (refl, refl)

-- The endpoint of the gateway is completed.
completes :
    new_gateway_client (record {
      endpoint = codes "http://gateway/";
      headers = [];
      tenant_header = [];
      user_header = [];
    })
    ≡ got gateway
unfolding new_gateway_client has_suffix text_eq trim_space trim trim_left trim_right is_space
completes = refl
