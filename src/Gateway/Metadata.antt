-- ===== src/Gateway/Metadata.antt =====
-- observe-gateway/internal/backend/metadata.go: the metadata of tenants in PostgreSQL.
-- pgx is a record that the section takes: the parser of a DSN, whether a pool can be made of its
-- settings and answers a ping, and the row that a query gives for a tenant.
mod Tests
use x_scope_hub_svc_plus.Prelude.{
  ℕ, ◌++◌, ◌⊎◌, inl, inr, Bool, false, Option, none, some, is_empty, ltb, if◌then◌else◌,
}
use x_scope_hub_svc_plus.Prelude.Text.{Text, codes, trim_space}
use x_scope_hub_svc_plus.Prelude.Time.{Duration, is_positive}
use x_scope_hub_svc_plus.Prelude.Ints.{ℤ, pos, negsuc}
use x_scope_hub_svc_plus.Gateway.Client.{TenantMetadata, Lookup, known, not_found, broken}
use x_scope_hub_svc_plus.Gateway.Config.{MetadataConfig}

pub data Scanned : Type 0 where
  row : TenantMetadata → Scanned
  no_rows : Scanned
  scan_error : Text → Scanned

pub record PoolConfig : Type 0 where
  pub max_conns : ℤ
  pub max_conn_idle_time : Duration

pub record Pgx : Type 1 where
  pub Pool : Type 0
  pub parse_config : Text → PoolConfig ⊎ Text
  pub new_with_config : PoolConfig → Pool ⊎ Text
  pub ping : Pool → Option Text
  pub query_row : Pool → Text → Text → Scanned

unfoldable above_zero : ℤ → Bool
above_zero (pos n) = ltb 0 n
above_zero (negsuc n) = false

-- The settings of the DSN, but those that the configuration gives.
unfoldable pub configured : MetadataConfig → PoolConfig → PoolConfig
unfolding above_zero is_positive
configured cfg pool = record {
  max_conns = if above_zero cfg.max_connections then cfg.max_connections else pool.max_conns;
  max_conn_idle_time =
      if is_positive cfg.max_conn_idle_time
      then cfg.max_conn_idle_time
      else pool.max_conn_idle_time;
}

abbrev pub default_query : Text
default_query = codes "SELECT org, log_table, trace_table FROM tenant_metadata WHERE tenant = $1"

module _ (pgx : Pgx) where
  open pgx use {Pool, parse_config, new_with_config, ping, query_row}

  pub record MetadataStore : Type 0 where
    pub pool : Pool
    pub tenant_query : Text

  -- A pool that answers.
  unfoldable pub connect : PoolConfig → Pool ⊎ Text
  connect config = elim (new_with_config config) [
    | inr e ↦ inr (codes "connect metadata db: " ++ e)
    | inl pool ↦ elim (ping pool) [
      | some e ↦ inr (codes "ping metadata db: " ++ e)
      | none ↦ inl pool
    ]
  ]

  unfoldable pub store_of : MetadataConfig → Pool → MetadataStore
  store_of cfg pool =
      let query = trim_space cfg.tenant_lookup_query in
      record { pool = pool; tenant_query = if is_empty query then default_query else query }

  -- A store that is switched on: connected, or the error.
  unfoldable pub open_store : MetadataConfig → Option MetadataStore ⊎ Text
  unfolding configured connect store_of
  open_store cfg =
      if is_empty (trim_space cfg.dsn)
      then inr (codes "metadata dsn required")
      else elim (parse_config cfg.dsn) [
        | inr e ↦ inr (codes "parse metadata dsn: " ++ e)
        | inl config ↦ elim (connect (configured cfg config)) [
          | inr e ↦ inr e
          | inl pool ↦ inl (some (store_of cfg pool))
        ]
      ]

  -- none is the nil store of a configuration that is switched off
  unfoldable pub new_metadata_store : MetadataConfig → Option MetadataStore ⊎ Text
  unfolding open_store
  new_metadata_store cfg = if cfg.enabled then open_store cfg else inl none

  unfoldable pub lookup : Option MetadataStore → Text → Lookup
  lookup none tenant = not_found
  lookup (some s) tenant = elim (query_row s.pool s.tenant_query tenant) [
    | row meta ↦ known meta
    | no_rows ↦ not_found
    | scan_error e ↦ broken e
  ]

  -- The store as the client takes it.
  abbrev pub lookup_of : Option MetadataStore → Option (Text → Lookup)
  lookup_of none = none
  lookup_of (some s) = some (lookup (some s))
