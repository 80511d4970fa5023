-- ===== src/Gateway/Client.antt =====
-- observe-gateway/internal/backend/client.go: which backend answers a query, and with what tables.
-- The HTTP calls, the URLs that are made for an organisation, and the query of the metadata database
-- are functions that a client holds. The body of a search is always encoded.
pub mod Sources
mod Tests
use x_scope_hub_svc_plus.Prelude.{Option, none, some, ℕ, Bool, is_empty, if◌then◌else◌}
use x_scope_hub_svc_plus.Prelude.Text.{Text, codes}
use x_scope_hub_svc_plus.Gateway.Query.{Request}
use x_scope_hub_svc_plus.Gateway.Query.Handler.{
  Result, Answer, result, unsupported, failed, Backend,
}
use x_scope_hub_svc_plus.Gateway.Translate.Logql
use x_scope_hub_svc_plus.Gateway.Translate.Traceql
use x_scope_hub_svc_plus.Gateway.Translate.Logql.{translate_logql}
use x_scope_hub_svc_plus.Gateway.Translate.Traceql.{translate_traceql}

pub record TenantMetadata : Type 0 where
  pub org : Text
  pub log_table : Text
  pub trace_table : Text

pub data Lookup : Type 0 where
  known : TenantMetadata → Lookup
  not_found : Lookup
  broken : Text → Lookup

pub data Resolved : Type 0 where
  resolved : TenantMetadata → Resolved
  unresolved : Text → Resolved

pub record SearchBody : Type 0 where
  pub sql : Text
  pub start : Option ℕ
  pub end : Option ℕ
  pub tenant : Text

pub record Client (Payload : Type 0) : Type 0 where
  pub default_org : Text
  pub default_log_table : Text
  pub default_trace_table : Text
  pub metadata : Option (Text → Lookup)
  pub open_observe : Text → Text → Request → Answer Payload  -- for an organisation and a tenant
  pub fallback : Option (Text → Request → Answer Payload)
  pub post_json : Text → Text → SearchBody → Answer Payload  -- for a tenant and a URL
  pub log_search_url : Text → Text
  pub trace_search_url : Text → Text

-- if own != "" { meta = own }
abbrev pub over : Text → Text → Text
over own default = if is_empty own then default else own

-- The texts of the translators' errors.
unfoldable pub logql_error : Logql.Error → Text
logql_error Logql.empty_logql = codes "empty logql"
logql_error Logql.invalid_selector = codes "invalid logql selector"

unfoldable pub traceql_error : Traceql.Error → Text
traceql_error Traceql.empty_traceql = codes "empty traceql"
traceql_error Traceql.not_from = codes "traceql must start with FROM"
traceql_error Traceql.missing_stream = codes "traceql missing stream"

unfoldable pub overridden : TenantMetadata → TenantMetadata → TenantMetadata
overridden own meta = record {
  org = over own.org meta.org;
  log_table = over own.log_table meta.log_table;
  trace_table = over own.trace_table meta.trace_table;
}

unfoldable pub search_body : Text → Text → Request → SearchBody
search_body sql tenant req = record { sql = sql; start = req.start; end = req.end; tenant = tenant }

module _ {Payload : Type 0} where
  -- res.Backend = name
  unfoldable pub answered_by : Text → Answer Payload → Answer Payload
  answered_by name (result r) = result (record r { backend = name })
  answered_by name (unsupported e) = unsupported e
  answered_by name (failed e) = failed e

  unfoldable pub defaults : Client Payload → TenantMetadata
  defaults c = record {
    org = c.default_org;
    log_table = c.default_log_table;
    trace_table = c.default_trace_table;
  }

  unfoldable pub resolve_tenant_metadata : Client Payload → Text → Resolved
  unfolding defaults overridden
  resolve_tenant_metadata c tenant = elim c.metadata [
    | none ↦ resolved (defaults c)
    | some lookup ↦ elim (lookup tenant) [
      | known own ↦ resolved (overridden own (defaults c))
      | not_found ↦ resolved (defaults c)
      | broken e ↦ unresolved e
    ]
  ]

  -- After OpenObserve has said that it does not support a query.
  unfoldable pub fall_back : Client Payload → Text → Request → Text → Answer Payload
  unfolding answered_by
  fall_back c tenant req e = elim c.fallback [
    | none ↦ unsupported e
    | some query ↦ answered_by (codes "fallback-promql") (query tenant req)
  ]

  unfoldable pub query_promql : Client Payload → Text → Request → Answer Payload
  unfolding resolve_tenant_metadata fall_back answered_by
  query_promql c tenant req = elim (resolve_tenant_metadata c tenant) [
    | unresolved e ↦ failed e
    | resolved meta ↦ elim (c.open_observe meta.org tenant req) [
      | result r ↦ answered_by (codes "openobserve-promql") (result r)
      | unsupported e ↦ fall_back c tenant req e
      | failed e ↦ failed e
    ]
  ]

  unfoldable pub query_logql : Client Payload → Text → Request → Answer Payload
  unfolding resolve_tenant_metadata answered_by search_body logql_error
  query_logql c tenant req = elim (resolve_tenant_metadata c tenant) [
    | unresolved e ↦ failed e
    | resolved meta ↦ elim (translate_logql req.query meta.log_table) [
      | Logql.failed e ↦ failed (logql_error e)
      | Logql.sql s ↦
          answered_by (codes "openobserve-logsql")
            (c.post_json tenant (c.log_search_url meta.org) (search_body s tenant req))
    ]
  ]

  unfoldable pub query_traceql : Client Payload → Text → Request → Answer Payload
  unfolding resolve_tenant_metadata answered_by search_body traceql_error
  query_traceql c tenant req = elim (resolve_tenant_metadata c tenant) [
    | unresolved e ↦ failed e
    | resolved meta ↦ elim (translate_traceql req.query meta.trace_table) [
      | Traceql.failed e ↦ failed (traceql_error e)
      | Traceql.sql s ↦
          answered_by (codes "openobserve-tracesql")
            (c.post_json tenant (c.trace_search_url meta.org) (search_body s tenant req))
    ]
  ]

  -- The client as the handler takes it.
  abbrev pub backend_of : Client Payload → Backend Payload
  backend_of c = record {
    query_promql = query_promql c;
    query_logql = query_logql c;
    query_traceql = query_traceql c;
  }
