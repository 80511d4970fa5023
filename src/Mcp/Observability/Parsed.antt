-- ===== src/Mcp/Observability/Parsed.antt =====
-- The tools that ask the gateway, after their arguments are parsed
-- (mcp-server/internal/plugins/observability.go).
use x_scope_hub_svc_plus.Prelude.{ℕ, ◌≡◌, ap, List, String}
use x_scope_hub_svc_plus.Prelude.Text.{Text}
use x_scope_hub_svc_plus.Mcp.Observability.{
  ObservabilityPlugin, SharedArgs, ToolError, Outcome, done, failed, then_do, HttpPost, Sent,
  metrics, templated, ToolResult, Wire,
}
use x_scope_hub_svc_plus.Mcp.Observability.Arguments.{parse_shared_args}
use x_scope_hub_svc_plus.Mcp.Observability.Requests.{with_defaults, query_observe_gateway}
use x_scope_hub_svc_plus.Mcp.Observability.Tools.{
  metric_queries, query_all, query_metrics, query_template_tool,
}

-- What a tool makes of the answers to its queries.
abbrev pub template_result :
    {Body : Type 0} → String → Text → SharedArgs → Body → Outcome (ToolResult Body)
template_result name template d resp =
    done (record { name = name; output = templated d.tenant d.service d.window template resp })

abbrev pub metrics_result :
    {Body : Type 0} → SharedArgs → List (Text × Body) → Outcome (ToolResult Body)
metrics_result d results =
    done (record { name = "query_metrics"; output = metrics d.tenant d.service d.window results })

-- The tools, where their arguments are parsed and where they are not.
module _ (wire : Wire) (send : HttpPost → Sent wire.Body) (p : ObservabilityPlugin) where
  pub template_tool-parsed :
      (name : String) (template : Text) (now : ℕ) (args : wire.Args) (parsed : SharedArgs)
      → parse_shared_args wire now args ≡ done parsed
      → query_template_tool wire send p name template now args
        ≡ then_do
            (query_observe_gateway wire send p (with_defaults wire send p parsed) template)
            (template_result name template (with_defaults wire send p parsed))
  unfolding query_template_tool
  template_tool-parsed name template now args parsed good =
      ap
        (λ o. then_do o (λ raw.
          then_do (query_observe_gateway wire send p (with_defaults wire send p raw) template)
            (template_result name template (with_defaults wire send p raw))))
        good

  pub template_tool-failed :
      (name : String) (template : Text) (now : ℕ) (args : wire.Args) (e : ToolError)
      → parse_shared_args wire now args ≡ failed e
      → query_template_tool wire send p name template now args ≡ failed e
  unfolding query_template_tool
  template_tool-failed name template now args e bad =
      ap
        (λ o. then_do o (λ raw.
          then_do (query_observe_gateway wire send p (with_defaults wire send p raw) template)
            (template_result name template (with_defaults wire send p raw))))
        bad

  pub query_metrics-parsed :
      (now : ℕ) (args : wire.Args) (parsed : SharedArgs)
      → parse_shared_args wire now args ≡ done parsed
      → query_metrics wire send p now args
        ≡ then_do
            (query_all wire send p
              (with_defaults wire send p parsed)
              (metric_queries (with_defaults wire send p parsed).metric))
            (metrics_result (with_defaults wire send p parsed))
  unfolding query_metrics
  query_metrics-parsed now args parsed good =
      ap
        (λ o. then_do o (λ raw.
          then_do
            (query_all wire send p (with_defaults wire send p raw)
              (metric_queries (with_defaults wire send p raw).metric))
            (metrics_result (with_defaults wire send p raw))))
        good

  pub query_metrics-failed :
      (now : ℕ) (args : wire.Args) (e : ToolError)
      → parse_shared_args wire now args ≡ failed e
      → query_metrics wire send p now args ≡ failed e
  unfolding query_metrics
  query_metrics-failed now args e bad =
      ap
        (λ o. then_do o (λ raw.
          then_do
            (query_all wire send p (with_defaults wire send p raw)
              (metric_queries (with_defaults wire send p raw).metric))
            (metrics_result (with_defaults wire send p raw))))
        bad
