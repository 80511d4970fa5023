-- ===== src/Mcp/Observability/Tests.antt =====
-- A plugin whose arguments are those of a window, and the theorems at it.
use x_scope_hub_svc_plus.Prelude.{ℕ, ◌*◌, ◌≡◌, ◌↔◌, refl, inl, inr, false, none, some, [], ◌∷◌}
use x_scope_hub_svc_plus.Prelude.Text.{
  Text, codes, trim_space, trim, trim_left, trim_right, is_space, text_eq,
}
use x_scope_hub_svc_plus.Prelude.Time.{Duration, one_hour}
use x_scope_hub_svc_plus.Mcp.Registry.{has_tool}
use x_scope_hub_svc_plus.Mcp.Observability.{
  ObservabilityPlugin, new_observability_plugin, SharedArgs, unknown_tool, done, failed, then_do,
  HttpPost, Sent, replied, metrics, Wire,
}
use x_scope_hub_svc_plus.Mcp.Observability.Arguments.{
  header_of, header_value, completed, complete, time_of, parse_shared_args,
}
use x_scope_hub_svc_plus.Mcp.Observability.Tools.{
  tools, metric_queries, query_all, query_metrics, execute_tool,
}
use x_scope_hub_svc_plus.Mcp.Observability.Requests.{with_defaults}
use x_scope_hub_svc_plus.Mcp.Observability.Listed.{execute_tool-listed}

abbrev half_hour : Duration
half_hour = record { is_negative = false; size = 1800000000000 }

-- The arguments are a metric.
abbrev arguments : Text → SharedArgs
arguments metric = record {
  service = codes "api";
  tenant = [];
  user = [];
  incident = [];
  metric = metric;
  window = codes "30m";
  prompt = [];
  start_raw = [];
  end_raw = [];
  headers = (codes "X-Tenant", some (codes "acme")) ∷ [];
  start = 0;
  end = 0;
}

abbrev wire : Wire
wire = record {
  Args = Text;
  Body = Text;
  decode = λ metric. inl (arguments metric);
  parse_time = λ s. inr (codes "no time");
  parse_duration = λ s. some half_hour;
  marshal = λ payload. inl (codes "{}");
  url_error = λ url. none;
  canonical = λ name. name;
  error_member = λ body. [];
}

abbrev answer : HttpPost → Sent Text
answer post = replied 200 (inl (codes "{}"))

abbrev plugin : ObservabilityPlugin
plugin = new_observability_plugin (record {
  observe_gateway_url = codes "http://gateway/";
  llm_ops_agent_url = codes "http://agent";
  default_tenant = codes "default";
  default_user = [];
  tenant_header = [];
  user_header = [];
})

abbrev noon : ℕ
noon = 12 * one_hour

execute_tool-listed_example : (has_tool "query_profiles" tools ≡ false) ↔ (
    execute_tool wire answer plugin noon "query_profiles" []
    ≡ failed (unknown_tool "query_profiles"))
execute_tool-listed_example = execute_tool-listed wire answer plugin noon "query_profiles" []

abbrev parsed : SharedArgs
parsed = completed wire noon (arguments []) 0 0

parses : parse_shared_args wire noon [] ≡ done parsed
unfolding parse_shared_args complete then_do time_of trim_space trim trim_left trim_right is_space
parses = refl

tenant_named : parsed.tenant ≡ codes "acme"
unfolding completed header_value header_of text_eq trim_space trim trim_left trim_right is_space
tenant_named = refl

abbrev ten : ℕ
ten = 10

-- A metric that does not exist is answered with no results and without an error.
no_metric :
    query_metrics wire answer plugin noon (codes "cpu")
    ≡ done (record {
      name = "query_metrics";
      output = metrics (codes "acme") (codes "api") (codes "30m") [];
    })
unfolding query_metrics parse_shared_args complete then_do time_of completed header_value header_of
    text_eq with_defaults metric_queries query_all trim_space trim trim_left trim_right is_space
no_metric = refl
