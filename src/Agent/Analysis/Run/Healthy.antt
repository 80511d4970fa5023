-- ===== src/Agent/Analysis/Run/Healthy.antt =====
-- What the status `healthy` of llm-ops-agent/internal/analysis/service.go says.
use x_scope_hub_svc_plus.Prelude.{
  ℕ, suc, ◌≡◌, refl, ap, sym, ◌∙◌, Option, none, some, List, [], ◌∷◌, ◌++◌, All, length, arith, inl,
  inr,
}
use x_scope_hub_svc_plus.Prelude.Text.{Text}
use x_scope_hub_svc_plus.Agent.Analysis.{Request, Response}
use x_scope_hub_svc_plus.Agent.Analysis.Normalize.{normalize_request}
use x_scope_hub_svc_plus.Agent.Analysis.Gateway.{
  Outcome-cases, got, HttpPost, Sent, Wire, GatewayClient, QueryResponse, query,
}
use x_scope_hub_svc_plus.Agent.Analysis.Collect.{
  Source, Arrival, Collected, with_error, collect, template_request, query_template,
  collect_evidence, nothing,
}
use x_scope_hub_svc_plus.Agent.Analysis.Health.{healthy, status_of, summarize_health}
use x_scope_hub_svc_plus.Agent.Analysis.Run.{Service, answer, respond, run}

length-append_one : {A : Type 0} (l : List A) (x : A) → length (l ++ x ∷ []) ≡ suc (length l)
length-append_one [] x = refl
length-append_one (y ∷ l) x = ap suc (length-append_one l x)

status_of-healthy : (l t n : ℕ) → status_of l t n ≡ healthy → (l ≡ 0) × (t ≡ 0) × (n ≡ 0)
unfolding status_of
status_of-healthy l t n h = ground arith

with_error-length :
    (s : Source) (o : Option Text) (errs : List Text)
    → length (with_error s o errs) ≡ 0
    → (o ≡ none) × (length errs ≡ 0)
unfolding with_error
with_error-length s none errs h = (refl, h)
with_error-length s (some e) errs h = absurd (omega (arith, h, length-append_one errs _))

collect-length :
    (arrive : Source → Arrival) (order : List Source) (c : Collected)
    → length (collect arrive order c).errs ≡ 0
    → All (λ (s : Source). (arrive s).err ≡ none) order × (length c.errs ≡ 0)
unfolding collect
collect-length arrive [] c h = (tt, h)
collect-length arrive (s ∷ order) c h =
    let (later, now) = collect-length arrive order _ h in
    let (here, before) = with_error-length s (arrive s).err c.errs now in ((here, later), before)

-- The query to a source was answered.
abbrev pub IsAnswered : Wire → (HttpPost → Sent) → GatewayClient → Request → Source → Type 0
IsAnswered wire send client req s =
    (resp : QueryResponse) × (query wire send client req.tenant req.user (template_request req s)
      ≡ got resp)

query_template-IsAnswered :
    (wire : Wire) (send : HttpPost → Sent) (client : GatewayClient) (req : Request) (s : Source)
    → (query_template wire send client req s).err ≡ none
    → IsAnswered wire send client req s
unfolding query_template
query_template-IsAnswered wire send client req s h =
    elim (Outcome-cases (query wire send client req.tenant req.user (template_request req s))) [
      | inl (resp, good) ↦ (resp, good)
      | inr (e, bad) ↦ absurd (ground arith)
    ]

All-IsAnswered :
    (wire : Wire) (send : HttpPost → Sent) (client : GatewayClient) (req : Request)
    (order : List Source)
    → All (λ (s : Source). (query_template wire send client req s).err ≡ none) order
    → All (IsAnswered wire send client req) order
All-IsAnswered wire send client req [] h = tt
All-IsAnswered wire send client req (s ∷ order) h = (
  query_template-IsAnswered wire send client req s h.0,
  All-IsAnswered wire send client req order h.1,
)

module _ {Float : Type 0} (s : Service Float) where
  respond-healthy :
      (req : Request) (c : Collected)
      → (respond s req c).health.status ≡ healthy
      → (c.evidence.logs.count ≡ 0) × (c.evidence.traces.count ≡ 0) × (length c.errs ≡ 0)
  unfolding respond answer summarize_health
  respond-healthy req c h =
      status_of-healthy c.evidence.logs.count c.evidence.traces.count (length c.errs) h

  respond_logs :
      (req : Request) (c : Collected)
      → (respond s req c).evidence.logs.count ≡ c.evidence.logs.count
  unfolding respond answer
  respond_logs req c = refl

  respond_traces :
      (req : Request) (c : Collected)
      → (respond s req c).evidence.traces.count ≡ c.evidence.traces.count
  unfolding respond answer
  respond_traces req c = refl

  run-respond :
      (now : ℕ) (send : HttpPost → Sent) (order : List Source) (request : Request)
      (r : Response Float)
      → run s now send order request ≡ got r
      → r
        ≡ respond s (normalize_request s.clock s.defaults now request) (
            collect_evidence s.wire send s.gateway
              (normalize_request s.clock s.defaults now request)
              order)
  unfolding run
  run-respond now send order request r h = ground arith

  -- A run that reports a service as healthy has had an answer of the gateway to every query, whatever
  -- the order of the answers, and counted no record in the error logs and in the failing traces.
  pub run-healthy :
      (now : ℕ) (send : HttpPost → Sent) (order : List Source) (request : Request)
      (r : Response Float)
      → run s now send order request ≡ got r
      → r.health.status ≡ healthy
      → All
          (IsAnswered s.wire send s.gateway (normalize_request s.clock s.defaults now request))
          order
        × (r.evidence.logs.count ≡ 0)
        × (r.evidence.traces.count ≡ 0)
  unfolding collect_evidence
  run-healthy now send order request r h status =
      let req = normalize_request s.clock s.defaults now request in
      let c = collect_evidence s.wire send s.gateway req order in
      let same : r ≡ respond s req c = run-respond now send order request r h in
      let (no_logs, no_traces, no_errs) =
        respond-healthy req c (ap (λ q. q.health.status) (sym same) ∙ status) in
      (
        All-IsAnswered s.wire send s.gateway req order
            (collect-length (query_template s.wire send s.gateway req) order nothing no_errs).0,
        ap (λ q. q.evidence.logs.count) same ∙ respond_logs req c ∙ no_logs,
        ap (λ q. q.evidence.traces.count) same ∙ respond_traces req c ∙ no_traces,
      )
