-- ===== src/Mcp/Observability/Guarded.antt =====
-- What the plugin's tools send, at the gateway that gets it
-- (mcp-server/internal/plugins/observability.go and observe-gateway/internal/server/server.go).
use x_scope_hub_svc_plus.Prelude.{◌≡◌, inr, true, String, str_eq, if◌then◌else◌}
use x_scope_hub_svc_plus.Prelude.Text.{Text, codes}
use x_scope_hub_svc_plus.Mcp.Observability.{
  ObservabilityPlugin, SharedArgs, for_gateway, HttpPost, Sent, Wire,
}
use x_scope_hub_svc_plus.Mcp.Observability.Requests.{query_payload}
use x_scope_hub_svc_plus.Mcp.Observability.Accepted.{fits}

-- The language of the queries of a tool.
abbrev pub tool_lang : String → Text
tool_lang name =
    if str_eq "query_metrics" name
    then codes "promql"
    else if str_eq "query_logs" name
    then codes "logql"
    else codes "traceql"

module _ {Float : Type 0} (ten : Float) (wire : Wire) where
  open wire use {Args, Body, decode}

  -- The wire that sends nothing to the gateway but what the gateway accepts in one language.
  abbrev pub guarded : Text → Wire
  guarded lang = record wire {
    marshal =
        λ payload. if fits ten lang payload then wire.marshal payload else inr (codes "refused");
  }

  module _ (lang : Text) (send : HttpPost → Sent Body) (p : ObservabilityPlugin) where
    -- The queries of a metric, or of a tool with one template, are in the language.
    abbrev IsFit : SharedArgs → Text × Text → Type 0
    IsFit args q = fits ten lang (for_gateway (query_payload args q.1)) ≡ true
