-- ===== src/Gateway/OpenObserve/Tests.antt =====
-- An OpenObserve without PromQL, and the theorem at it.
use x_scope_hub_svc_plus.Prelude.{ℕ, ◌≡◌, refl, ◌⊎◌, inl, false, Option, none, some, [], ◌++◌}
use x_scope_hub_svc_plus.Prelude.Text.{Text, codes, text_eq, cut, after_prefix}
use x_scope_hub_svc_plus.Prelude.Headers.{set_header, set_canonical, set_given}
use x_scope_hub_svc_plus.Agent.Numbers.{parse_uint, digits_from, is_digit}
use x_scope_hub_svc_plus.Gateway.Query.{Request, has_time_range}
use x_scope_hub_svc_plus.Gateway.Query.Handler.{Result, result}
use x_scope_hub_svc_plus.Gateway.Client.{
  TenantMetadata, Lookup, resolved, resolve_tenant_metadata, defaults, answered_by, fall_back,
  query_promql,
}
use x_scope_hub_svc_plus.Gateway.Config.{BackendConfig, default_config}
use x_scope_hub_svc_plus.Gateway.OpenObserve.{
  HttpRequest, HttpResponse, Library, OpenObserveClient, PromFallbackClient, signed, with_sign,
  parse_int64, resolve, resolve_org, for_org, prom_url, fallback_url, promql_url, range_params,
  apply_headers, parse_cost, answer_of, read_promql, read_or_fail, call, query_open_observe,
  query_fallback, client_of,
}
use x_scope_hub_svc_plus.Gateway.OpenObserve.Support.{IsRefused, query_promql-IsRefused}

abbrev lib : Library
lib = record {
  Url = Text;
  parse_url = λ u. inl u;
  joined = λ base path. base ++ path;
  with_params = λ u params. u;
  sprintf = λ format org. codes "/api/" ++ org ++ codes "/promql/query";
  seconds_text = λ t. codes "0";
  duration_text = λ d. codes "0";
  parse_duration = λ s. none;
  request_error = λ u. none;
  canonical = λ name. name;
  encode = λ body. body.sql;
}

abbrev oo : OpenObserveClient lib
oo = record {
  base_url = codes "http://oo";
  default_org = codes "main";
  api_key = codes "key";
  prom_query = codes "/api/%s/promql/query";
  prom_range = [];
  log_search = [];
  trace_search = [];
}

abbrev fb : PromFallbackClient lib
fb = record { base_url = codes "http://vm"; query_path = []; range_path = []; api_key = [] }

-- OpenObserve answers 404 and the fallback 200, with a cost.
abbrev send : HttpRequest → HttpResponse ⊎ Text
send request = inl (record {
  status = elim (after_prefix (codes "http://oo") request.url) [ none ↦ 200 | some rest ↦ 404 ];
  header = λ name. codes "12";
  body = request.url;
})

abbrev request : Request
request = record {
  lang = codes "promql";
  query = codes "up";
  template = [];
  variables = [];
  start = none;
  end = none;
  step = [];
  normalize = false;
}

abbrev ten : ℕ
ten = 10

abbrev backends : BackendConfig
backends = (default_config ten).backends

abbrev fallback : Option (PromFallbackClient lib)
fallback = some fb

abbrev metadata : Option (Text → Lookup)
metadata = none

abbrev found : Result Text
found = record {
  payload = codes "http://vm/api/v1/query";
  backend = codes "fallback-promql";
  cost = 12;
}

falls_back :
    query_promql (client_of lib send backends 5 oo fallback metadata) (codes "acme") request
    ≡ result found
unfolding query_promql resolve_tenant_metadata defaults fall_back answered_by client_of
    query_open_observe query_fallback prom_url promql_url for_org resolve resolve_org fallback_url
    range_params apply_headers parse_cost parse_int64 with_sign signed read_promql read_or_fail
    answer_of call has_time_range cut after_prefix text_eq parse_uint digits_from is_digit
    set_header set_canonical set_given
falls_back = refl

query_promql-IsRefused_example :
    (meta : TenantMetadata) × (resolve_tenant_metadata
        (client_of lib send backends 5 oo fallback metadata)
        (codes "acme")
      ≡ resolved meta)
    × (((r0 : Result Text) × (query_open_observe lib send oo 5 meta.org (codes "acme") request
            ≡ result r0)
          × (found ≡ record r0 { backend = codes "openobserve-promql" }))
        ⊎ ((f : PromFallbackClient lib) × (r0 : Result Text) × IsRefused lib send oo 5 meta.org
              (codes "acme")
              request
            × (fallback ≡ some f)
            × (query_fallback lib send f (codes "acme") request ≡ result r0)
            × (found ≡ record r0 { backend = codes "fallback-promql" })))
query_promql-IsRefused_example =
    query_promql-IsRefused lib send backends 5 oo fallback metadata (codes "acme") request found
      falls_back
