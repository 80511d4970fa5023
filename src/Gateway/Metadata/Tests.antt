-- ===== src/Gateway/Metadata/Tests.antt =====
-- A store that is switched off, and a row that is missing.
use x_scope_hub_svc_plus.Prelude.{◌≡◌, refl, inl, none, some, false, []}
use x_scope_hub_svc_plus.Prelude.Text.{Text, codes}
use x_scope_hub_svc_plus.Prelude.Ints.{pos}
use x_scope_hub_svc_plus.Prelude.Time.{one_hour}
use x_scope_hub_svc_plus.Gateway.Client.{not_found}
use x_scope_hub_svc_plus.Gateway.Config.{default_config}
use x_scope_hub_svc_plus.Gateway.Metadata.{Pgx, no_rows, new_metadata_store, lookup}

abbrev pgx : Pgx
pgx = record {
  Pool = Text;
  parse_config = λ dsn. inl (record {
    max_conns = pos 4;
    max_conn_idle_time = record { is_negative = false; size = one_hour };
  });
  new_with_config = λ config. inl (codes "pool");
  ping = λ pool. none;
  query_row = λ pool query tenant. no_rows;
}

abbrev ten : Text
ten = codes "10"

switched_off : new_metadata_store pgx (default_config ten).backends.metadata ≡ inl none
unfolding new_metadata_store default_config
switched_off = refl

unknown_tenant :
    lookup pgx (some (record { pool = codes "pool"; tenant_query = [] })) (codes "acme") ≡ not_found
unfolding lookup
unknown_tenant = refl
