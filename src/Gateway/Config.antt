-- ===== src/Gateway/Config.antt =====
-- observe-gateway/internal/config/config.go: the configuration, its defaults and Load.
-- The file system, os.ExpandEnv and the YAML decoder are arguments of Load; a float64 is a value of a
-- type that the sections take. ResolveQueryTemplate is in Gateway/Query/Template.antt.
mod Tests
use x_scope_hub_svc_plus.Prelude.{
  ℕ, ◌*◌, ◌⊎◌, inl, inr, Bool, true, false, List, [], ◌∷◌, is_empty, if◌then◌else◌,
}
use x_scope_hub_svc_plus.Prelude.Text.{Text, codes}
use x_scope_hub_svc_plus.Prelude.Time.{Duration, one_hour}
use x_scope_hub_svc_plus.Prelude.Ints.{ℤ, pos}
use x_scope_hub_svc_plus.Gateway.Query.Template.{QueryTemplate, Templates}

pub record ServerConfig : Type 0 where
  pub address : Text
  pub read_timeout : Duration
  pub write_timeout : Duration
  pub idle_timeout : Duration
  pub tenant_header : Text
  pub user_header : Text

pub record AuthConfig : Type 0 where
  pub enabled : Bool
  pub jwks_url : Text
  pub audience : List Text
  pub issuer : Text
  pub tenant_claim : Text
  pub user_claim : Text
  pub cache_ttl : Duration
  pub insecure_tls : Bool

pub record RateLimiterConfig (Float : Type 0) : Type 0 where
  pub enabled : Bool
  pub requests_per_second : Float
  pub burst : ℤ
  pub window : Duration
  pub redis_addr : Text
  pub redis_username : Text
  pub redis_password : Text
  pub redis_db : ℤ
  pub redis_tls_insecure : Bool
  pub redis_tls_ca : Text
  pub redis_tls_skip_verify : Bool

pub record CacheConfig : Type 0 where
  pub enabled : Bool
  pub num_counters : ℤ
  pub max_cost : ℤ
  pub buffer_items : ℤ
  pub ttl : Duration

pub record AuditConfig : Type 0 where
  pub enabled : Bool

pub record OpenObserveConfig : Type 0 where
  pub base_url : Text
  pub org : Text
  pub api_key : Text
  pub timeout : Duration
  pub prom_query_endpoint : Text
  pub prom_range_endpoint : Text
  pub log_search_endpoint : Text
  pub trace_search_endpoint : Text
  pub log_table : Text
  pub trace_table : Text

pub record FallbackConfig : Type 0 where
  pub enabled : Bool
  pub base_url : Text
  pub api_key : Text
  pub timeout : Duration
  pub query_endpoint : Text
  pub range_endpoint : Text

pub record MetadataConfig : Type 0 where
  pub enabled : Bool
  pub dsn : Text
  pub max_connections : ℤ
  pub max_conn_idle_time : Duration
  pub tenant_lookup_query : Text

pub record BackendConfig : Type 0 where
  pub open_observe : OpenObserveConfig
  pub fallback : FallbackConfig
  pub metadata : MetadataConfig

pub record Config (Float : Type 0) : Type 0 where
  pub server : ServerConfig
  pub auth : AuthConfig
  pub rate_limiter : RateLimiterConfig Float
  pub cache : CacheConfig
  pub audit : AuditConfig
  pub backends : BackendConfig
  pub query_templates : Templates

abbrev seconds : ℕ → Duration
seconds n = record { is_negative = false; size = n * 1000000000 }

abbrev no_time : Duration
no_time = record { is_negative = false; size = 0 }

abbrev pub default_templates : Templates
default_templates =
    (
      codes "service_error_rate",
      record {
        lang = codes "promql";
        query =
            codes
              "sum(rate(http_requests_total{service=\"{{service}}\",status=~\"5..\"}[{{window}}])) / clamp_min(sum(rate(http_requests_total{service=\"{{service}}\"}[{{window}}])), 1)";
        step = codes "5m";
      },
    )
    ∷ (
      codes "service_latency_p95",
      record {
        lang = codes "promql";
        query =
            codes
              "histogram_quantile(0.95, sum(rate(http_request_duration_seconds_bucket{service=\"{{service}}\"}[{{window}}])) by (le))";
        step = codes "5m";
      },
    )
    ∷ (
      codes "service_error_logs",
      record {
        lang = codes "logql";
        query = codes "{service=\"{{service}}\"} |= \"error\"";
        step = [];
      },
    )
    ∷ (
      codes "service_error_traces",
      record {
        lang = codes "traceql";
        query = codes "FROM {{service}} WHERE error=true";
        step = [];
      },
    )
    ∷ (
      codes "service_topology_logs",
      record { lang = codes "logql"; query = codes "{service=\"{{service}}\"}"; step = [] },
    )
    ∷ []

abbrev default_openobserve : OpenObserveConfig
default_openobserve = record {
  base_url = codes "http://localhost:5080";
  org = codes "default";
  api_key = [];
  timeout = seconds 30;
  prom_query_endpoint = codes "/api/%s/promql/query";
  prom_range_endpoint = codes "/api/%s/promql/query_range";
  log_search_endpoint = codes "/api/%s/_search";
  trace_search_endpoint = codes "/api/%s/traces";
  log_table = codes "logs";
  trace_table = codes "traces";
}

abbrev default_backends : BackendConfig
default_backends = record {
  open_observe = default_openobserve;
  fallback = record {
    enabled = false;
    base_url = [];
    api_key = [];
    timeout = no_time;
    query_endpoint = [];
    range_endpoint = [];
  };
  metadata = record {
    enabled = false;
    dsn = [];
    max_connections = pos 0;
    max_conn_idle_time = no_time;
    tenant_lookup_query = [];
  };
}

abbrev default_server : ServerConfig
default_server = record {
  address = codes ":8080";
  read_timeout = seconds 15;
  write_timeout = seconds 15;
  idle_timeout = seconds 60;
  tenant_header = codes "X-Tenant";
  user_header = codes "X-User";
}

abbrev default_auth : AuthConfig
default_auth = record {
  enabled = false;
  jwks_url = [];
  audience = [];
  issuer = [];
  tenant_claim = codes "tenant";
  user_claim = codes "sub";
  cache_ttl = record { is_negative = false; size = one_hour };
  insecure_tls = false;
}

-- What os.ReadFile answers.
pub data FileRead : Type 0 where
  missing : FileRead
  unreadable : Text → FileRead
  contents : Text → FileRead

-- The number 10 is an argument.
module _ {Float : Type 0} (ten : Float) where
  unfoldable pub default_config : Config Float
  default_config = record {
    server = default_server;
    auth = default_auth;
    rate_limiter = record {
      enabled = false;
      requests_per_second = ten;
      burst = pos 20;
      window = seconds 60;
      redis_addr = [];
      redis_username = [];
      redis_password = [];
      redis_db = pos 0;
      redis_tls_insecure = false;
      redis_tls_ca = [];
      redis_tls_skip_verify = false;
    };
    cache = record {
      enabled = false;
      num_counters = pos 10000;
      max_cost = pos 268435456;
      buffer_items = pos 64;
      ttl = seconds 60;
    };
    audit = record { enabled = true };
    backends = default_backends;
    query_templates = default_templates;
  }

  pub data Loaded : Type 0 where
    loaded : Config Float → Loaded
    read_config unmarshal_config : Text → Loaded  -- errors

  -- The decoder changes a configuration by what a text says, or fails with an error.
  unfoldable pub load :
      (Text → FileRead)
      → (Text → Text)
      → (Text → Config Float → Config Float ⊎ Text)
      → Text
      → Loaded
  unfolding default_config
  load read expand unmarshal path =
      if is_empty path then loaded default_config else elim (read path) [
        | missing ↦ loaded default_config
        | unreadable e ↦ read_config e
        | contents data_read ↦ elim (unmarshal (expand data_read) default_config) [
          | inl cfg ↦ loaded cfg
          | inr e ↦ unmarshal_config e
        ]
      ]
