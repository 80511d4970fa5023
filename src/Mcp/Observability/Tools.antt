-- ===== src/Mcp/Observability/Tools.antt =====
-- mcp-server/internal/plugins/observability.go: what the plugin lists, and its tools.
use x_scope_hub_svc_plus.Prelude.{
  ℕ, ◌||◌, List, [], ◌∷◌, ◌++◌, String, str_eq, is_empty, if◌then◌else◌,
}
use x_scope_hub_svc_plus.Prelude.Text.{Text, codes, text_eq}
use x_scope_hub_svc_plus.Mcp.Registry.{ResourcePayload, ToolDescriptor, Plugin}
use x_scope_hub_svc_plus.Mcp.Observability.{
  ObservabilityPlugin, SharedArgs, unknown_tool, no_agent_url, Outcome, done, failed, then_do,
  AnalysisPayload, for_agent, HttpPost, Sent, metrics, templated, analysis, ToolResult, Wire,
}
use x_scope_hub_svc_plus.Mcp.Observability.Arguments.{parse_shared_args}
use x_scope_hub_svc_plus.Mcp.Observability.Requests.{
  post_json, with_defaults, query_observe_gateway,
}

-- What a plugin's resources hold.
abbrev pub resources : List (ResourcePayload (List (String × List String)))
resources =
    record {
      name = "monitoring_capabilities";
      description = "Available monitoring analysis surfaces exposed by XScopeHub.";
      body =
          ("queries", "query_metrics" ∷ "query_logs" ∷ "query_traces" ∷ [])
          ∷ (
            "analysis",
            "get_topology" ∷ "analyze_incident" ∷ "summarize_service_health" ∷ "propose_remediation"
                ∷ [],
          )
          ∷ [];
    }
    ∷ record {
      name = "analysis_templates";
      description = "Default observe-gateway templates used by the monitoring agent.";
      body =
          ("metrics", "service_error_rate" ∷ "service_latency_p95" ∷ [])
          ∷ ("logs", "service_error_logs" ∷ [])
          ∷ ("traces", "service_error_traces" ∷ [])
          ∷ ("topology", "service_topology_logs" ∷ [])
          ∷ [];
    }
    ∷ []

abbrev pub tools : List ToolDescriptor
tools =
    record {
      name = "query_metrics";
      description = "Query service metrics through observe-gateway templates.";
      input_schema =
          "{\"type\":\"object\",\"required\":[\"service\"],\"properties\":{\"service\":{\"type\":\"string\"},\"tenant\":{\"type\":\"string\"},\"user\":{\"type\":\"string\"},\"metric\":{\"type\":\"string\",\"enum\":[\"error_rate\",\"latency_p95\"]},\"window\":{\"type\":\"string\"},\"start\":{\"type\":\"string\",\"format\":\"date-time\"},\"end\":{\"type\":\"string\",\"format\":\"date-time\"}}}";
    }
    ∷ record {
      name = "query_logs";
      description = "Query error logs for a service through observe-gateway.";
      input_schema =
          "{\"type\":\"object\",\"required\":[\"service\"],\"properties\":{\"service\":{\"type\":\"string\"},\"tenant\":{\"type\":\"string\"},\"user\":{\"type\":\"string\"},\"window\":{\"type\":\"string\"},\"start\":{\"type\":\"string\",\"format\":\"date-time\"},\"end\":{\"type\":\"string\",\"format\":\"date-time\"}}}";
    }
    ∷ record {
      name = "query_traces";
      description = "Query failing traces for a service through observe-gateway.";
      input_schema =
          "{\"type\":\"object\",\"required\":[\"service\"],\"properties\":{\"service\":{\"type\":\"string\"},\"tenant\":{\"type\":\"string\"},\"user\":{\"type\":\"string\"},\"window\":{\"type\":\"string\"},\"start\":{\"type\":\"string\",\"format\":\"date-time\"},\"end\":{\"type\":\"string\",\"format\":\"date-time\"}}}";
    }
    ∷ record {
      name = "get_topology";
      description = "Summarize service topology evidence using llm-ops-agent.";
      input_schema =
          "{\"type\":\"object\",\"required\":[\"service\"],\"properties\":{\"service\":{\"type\":\"string\"},\"tenant\":{\"type\":\"string\"},\"user\":{\"type\":\"string\"},\"window\":{\"type\":\"string\"},\"start\":{\"type\":\"string\",\"format\":\"date-time\"},\"end\":{\"type\":\"string\",\"format\":\"date-time\"},\"incident\":{\"type\":\"string\"}}}";
    }
    ∷ record {
      name = "analyze_incident";
      description = "Run full incident analysis against metrics, logs, traces, and topology.";
      input_schema =
          "{\"type\":\"object\",\"required\":[\"service\"],\"properties\":{\"service\":{\"type\":\"string\"},\"tenant\":{\"type\":\"string\"},\"user\":{\"type\":\"string\"},\"incident\":{\"type\":\"string\"},\"window\":{\"type\":\"string\"},\"start\":{\"type\":\"string\",\"format\":\"date-time\"},\"end\":{\"type\":\"string\",\"format\":\"date-time\"},\"prompt\":{\"type\":\"string\"}}}";
    }
    ∷ record {
      name = "summarize_service_health";
      description = "Produce a structured health summary for a service.";
      input_schema =
          "{\"type\":\"object\",\"required\":[\"service\"],\"properties\":{\"service\":{\"type\":\"string\"},\"tenant\":{\"type\":\"string\"},\"user\":{\"type\":\"string\"},\"window\":{\"type\":\"string\"},\"start\":{\"type\":\"string\",\"format\":\"date-time\"},\"end\":{\"type\":\"string\",\"format\":\"date-time\"},\"incident\":{\"type\":\"string\"}}}";
    }
    ∷ record {
      name = "propose_remediation";
      description = "Generate remediation guidance based on current evidence.";
      input_schema =
          "{\"type\":\"object\",\"required\":[\"service\"],\"properties\":{\"service\":{\"type\":\"string\"},\"tenant\":{\"type\":\"string\"},\"user\":{\"type\":\"string\"},\"window\":{\"type\":\"string\"},\"start\":{\"type\":\"string\",\"format\":\"date-time\"},\"end\":{\"type\":\"string\",\"format\":\"date-time\"},\"incident\":{\"type\":\"string\"},\"prompt\":{\"type\":\"string\"}}}";
    }
    ∷ []

-- The queries that a metric stands for, by their keys and templates.
unfoldable pub metric_queries : Text → List (Text × Text)
unfolding text_eq
metric_queries metric =
    (if is_empty metric || text_eq metric (codes "error_rate")
      then (codes "error_rate", codes "service_error_rate") ∷ []
      else [])
    ++ (if is_empty metric || text_eq metric (codes "latency_p95")
        then (codes "latency_p95", codes "service_latency_p95") ∷ []
        else [])

module _ (wire : Wire) where
  open wire use {Args, Body}

  module _ (send : HttpPost → Sent Body) (p : ObservabilityPlugin) where
    -- The loop over the queries, which stops at the first error.
    unfoldable pub query_all : SharedArgs → List (Text × Text) → Outcome (List (Text × Body))
    unfolding then_do query_observe_gateway
    query_all args [] = done []
    query_all args ((key, template) ∷ queries) =
        let rest = query_all args queries in
        then_do (query_observe_gateway wire send p args template)
          (λ resp. then_do rest (λ results. done ((key, resp) ∷ results)))

    unfoldable pub query_metrics : ℕ → Args → Outcome (ToolResult Body)
    unfolding then_do parse_shared_args with_defaults metric_queries query_all
    query_metrics now args = then_do (parse_shared_args wire now args) (λ raw.
        let parsed = with_defaults wire send p raw in
        then_do (query_all parsed (metric_queries parsed.metric)) (λ results. done (record {
          name = "query_metrics";
          output = metrics parsed.tenant parsed.service parsed.window results;
        })))

    unfoldable pub query_template_tool : String → Text → ℕ → Args → Outcome (ToolResult Body)
    unfolding then_do parse_shared_args with_defaults query_observe_gateway
    query_template_tool name template now args = then_do (parse_shared_args wire now args) (λ raw.
        let parsed = with_defaults wire send p raw in
        then_do (query_observe_gateway wire send p parsed template) (λ resp. done (record {
          name = name;
          output = templated parsed.tenant parsed.service parsed.window template resp;
        })))

    unfoldable pub analysis_payload : String → SharedArgs → AnalysisPayload
    analysis_payload goal args = record {
      goal = goal;
      tenant = args.tenant;
      user = args.user;
      service = args.service;
      incident = args.incident;
      window = args.window;
      start = args.start;
      end = args.end;
      prompt = args.prompt;
    }

    unfoldable pub run_analysis : String → ℕ → Args → Outcome (ToolResult Body)
    unfolding then_do parse_shared_args with_defaults analysis_payload post_json
    run_analysis goal now args =
        if is_empty p.agent_url
        then failed no_agent_url
        else then_do (parse_shared_args wire now args) (λ raw.
          let parsed = with_defaults wire send p raw in
          then_do
            (post_json wire send p (p.agent_url ++ codes "/analysis/run")
              (for_agent (analysis_payload goal parsed)) parsed.tenant parsed.user)
            (λ response. done (record { name = goal; output = analysis response })))

    unfoldable pub execute_tool : ℕ → String → Args → Outcome (ToolResult Body)
    unfolding query_metrics query_template_tool run_analysis
    execute_tool now name args =
        if str_eq "query_metrics" name
        then query_metrics now args
        else if str_eq "query_logs" name
        then query_template_tool name (codes "service_error_logs") now args
        else if str_eq "query_traces" name
        then query_template_tool name (codes "service_error_traces") now args
        else if str_eq "get_topology" name
        then run_analysis "get_topology" now args
        else if str_eq "analyze_incident" name
        then run_analysis "analyze_incident" now args
        else if str_eq "summarize_service_health" name
        then run_analysis "summarize_service_health" now args
        else if str_eq "propose_remediation" name
        then run_analysis "propose_remediation" now args
        else failed (unknown_tool name)

    -- The plugin as the registry has it, at a time.
    unfoldable pub observability :
        ℕ → Plugin (List (String × List String)) Args (Outcome (ToolResult Body))
    unfolding execute_tool
    observability now = record {
      id = "observability";
      resources = resources;
      tools = tools;
      execute_tool = execute_tool now;
    }
