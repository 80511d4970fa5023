-- ===== src/Gateway/Client/Tests.antt =====
-- A client whose OpenObserve knows no PromQL, and the theorems at it.
use x_scope_hub_svc_plus.Prelude.{◌≡◌, refl, some, [], false}
use x_scope_hub_svc_plus.Prelude.Text.{
  Text, codes, is_space, trim, trim_left, trim_right, trim_space, after_prefix, join,
}
use x_scope_hub_svc_plus.Gateway.Query.{Request}
use x_scope_hub_svc_plus.Gateway.Query.Handler.{Result, result, unsupported}
use x_scope_hub_svc_plus.Gateway.Translate.Sql.{select, sanitize_identifier, underscores}
use x_scope_hub_svc_plus.Gateway.Translate.Logql.{
  translate_logql, selector, find_stages, match_stage, operator, quoted, stage_conditions,
}
use x_scope_hub_svc_plus.Gateway.Client.{
  TenantMetadata, known, resolved, Client, answered_by, defaults, overridden,
  resolve_tenant_metadata, fall_back, query_promql, search_body, query_logql,
}

abbrev client : Client Text
client = record {
  default_org = codes "main";
  default_log_table = codes "logs";
  default_trace_table = codes "traces";
  metadata =
      some (λ tenant. known (record { org = []; log_table = codes "acme_logs"; trace_table = [] }));
  open_observe = λ org tenant r. unsupported (codes "no promql");
  fallback = some (λ tenant r. result (record { payload = codes "up"; backend = []; cost = 1 }));
  post_json = λ tenant url body. result (record { payload = body.sql; backend = []; cost = 2 });
  log_search_url = λ org. org;
  trace_search_url = λ org. org;
}

abbrev request : Request
request = record {
  lang = codes "logql";
  query = codes "up";
  template = [];
  variables = [];
  start = some 1;
  end = some 2;
  step = [];
  normalize = false;
}

abbrev acme : TenantMetadata
acme = record { org = codes "main"; log_table = codes "acme_logs"; trace_table = codes "traces" }

resolves : resolve_tenant_metadata client (codes "acme") ≡ resolved acme
unfolding resolve_tenant_metadata defaults overridden
resolves = refl

abbrev from_fallback : Result Text
from_fallback = record { payload = codes "up"; backend = codes "fallback-promql"; cost = 1 }

falls_back : query_promql client (codes "acme") request ≡ result from_fallback
unfolding query_promql fall_back answered_by resolve_tenant_metadata
falls_back = refl

abbrev searched : Result Text
searched = record {
  payload = codes "SELECT * FROM acme_logs WHERE 1=1";
  backend = codes "openobserve-logsql";
  cost = 2;
}

searches : query_logql client (codes "acme") request ≡ result searched
unfolding query_logql answered_by search_body resolve_tenant_metadata defaults overridden
    translate_logql selector find_stages match_stage operator quoted stage_conditions select join
    sanitize_identifier underscores trim_space trim trim_left trim_right is_space after_prefix
searches = refl
