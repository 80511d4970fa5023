-- ===== src/Agent/Analysis/Run/Accepted.antt =====
-- The queries that llm-ops-agent/internal/analysis/service.go sends, at the gateway that gets them
-- (observe-gateway/internal/server/server.go), with the templates of the gateway's defaults
-- (observe-gateway/internal/config/config.go).
use x_scope_hub_svc_plus.Prelude.{
  ℕ, ◌||◌, ap, ◌∙◌, ◌≡◌, ◌≢◌, refl, ◌≤◌, true, false, Option, none, some, [], if◌then◌else◌, arith,
}
use x_scope_hub_svc_plus.Prelude.Text.{codes, text_eq}
use x_scope_hub_svc_plus.Prelude.Time.{is_zero}
use x_scope_hub_svc_plus.Gateway.Query
use x_scope_hub_svc_plus.Gateway.Query.{has_time_range, starts_late}
use x_scope_hub_svc_plus.Gateway.Query.Template.{resolve_template}
use x_scope_hub_svc_plus.Gateway.Query.Handler.{validate}
use x_scope_hub_svc_plus.Gateway.Config.{default_config}
use x_scope_hub_svc_plus.Agent.Analysis.{Request}
use x_scope_hub_svc_plus.Agent.Analysis.Gateway.{QueryRequest}
use x_scope_hub_svc_plus.Agent.Analysis.Collect.{
  Source, metric_error_rate, metric_latency_p95, logs, traces, topology, lang_of, template_request,
}

abbrev pub time_set : ℕ → Option ℕ
time_set t = if is_zero t then none else some t

-- What the gateway decodes of what the agent encodes: the members that are not sent are empty.
unfoldable pub received : QueryRequest → Query.Request
received q = record {
  lang = [];
  query = [];
  template = q.template;
  variables = q.variables;
  start = time_set q.start;
  end = time_set q.end;
  step = [];
  normalize = false;
}

-- The request that the gateway makes of a query of the agent, in its default configuration.
unfoldable pub asked : {Float : Type 0} → Float → Request → Source → Query.Request
unfolding received
asked ten req s =
    resolve_template (default_config ten).query_templates (received (template_request req s))

module _ {Float : Type 0} (ten : Float) (req : Request) where
  asked-lang : (s : Source) → (asked ten req s).lang ≡ lang_of s
  unfolding asked resolve_template template_request text_eq default_config
  asked-lang metric_error_rate = refl
  asked-lang metric_latency_p95 = refl
  asked-lang logs = refl
  asked-lang traces = refl
  asked-lang topology = refl

  asked-times :
      (s : Source)
      → ((asked ten req s).start ≡ time_set req.start) × ((asked ten req s).end ≡ time_set req.end)
  unfolding asked resolve_template template_request text_eq default_config
  asked-times metric_error_rate = (refl, refl)
  asked-times metric_latency_p95 = (refl, refl)
  asked-times logs = (refl, refl)
  asked-times traces = (refl, refl)
  asked-times topology = (refl, refl)

  known_lang :
      (s : Source)
      → (text_eq (lang_of s) (codes "promql")
          || text_eq (lang_of s) (codes "logql")
          || text_eq (lang_of s) (codes "traceql"))
        ≡ true
  unfolding text_eq
  known_lang metric_error_rate = refl
  known_lang metric_latency_p95 = refl
  known_lang logs = refl
  known_lang traces = refl
  known_lang topology = refl

  validate-in_order :
      (r : Query.Request)
      → (text_eq r.lang (codes "promql")
          || text_eq r.lang (codes "logql")
          || text_eq r.lang (codes "traceql"))
        ≡ true
      → r.start ≡ some req.start
      → r.end ≡ some req.end
      → req.start ≤ req.end
      → validate r ≡ none
  unfolding validate has_time_range starts_late
  validate-in_order r known start end ordered = ground arith

  -- Every query of an analysis whose times are set and in order is one that the gateway accepts, in its
  -- default configuration: its template gives it the language of its source, and validate finds no
  -- error.
  pub asked-accepted :
      (s : Source)
      → req.start ≢ 0
      → req.start ≤ req.end
      → ((asked ten req s).lang ≡ lang_of s) × (validate (asked ten req s) ≡ none)
  asked-accepted s started ordered =
      let (start, end) = asked-times s in
      (
        asked-lang s,
        validate-in_order (asked ten req s)
            (ap
                (λ l.
                  text_eq l (codes "promql")
                  || text_eq l (codes "logql")
                  || text_eq l (codes "traceql"))
                (asked-lang s)
              ∙ known_lang s)
            (start ∙ ground arith) (end ∙ ground arith) ordered,
      )
