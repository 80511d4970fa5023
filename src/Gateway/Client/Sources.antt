-- ===== src/Gateway/Client/Sources.antt =====
-- Where the results of observe-gateway/internal/backend/client.go come from.
use x_scope_hub_svc_plus.Prelude.{
  ◌≡◌, refl, ◌⊎◌, inl, inr, some, false, is_empty, arith, Option-cases,
}
use x_scope_hub_svc_plus.Prelude.Text.{Text, codes}
use x_scope_hub_svc_plus.Gateway.Query.{Request}
use x_scope_hub_svc_plus.Gateway.Query.Handler.{Result, Answer, result, unsupported}
use x_scope_hub_svc_plus.Gateway.Query.Handler.Isolation.{Answer-cases}
use x_scope_hub_svc_plus.Gateway.Client.{
  TenantMetadata, Lookup, known, not_found, broken, Resolved, resolved, unresolved, Client,
  answered_by, defaults, overridden, resolve_tenant_metadata, fall_back, query_promql,
}

Resolved-cases :
    (r : Resolved) → ((m : TenantMetadata) × (r ≡ resolved m)) ⊎ ((e : Text) × (r ≡ unresolved e))
Resolved-cases (resolved m) = inl (m, refl)
Resolved-cases (unresolved e) = inr (e, refl)

Lookup-cases :
    (l : Lookup)
    → ((m : TenantMetadata) × (l ≡ known m)) ⊎ ((l ≡ not_found) ⊎ ((e : Text) × (l ≡ broken e)))
Lookup-cases (known m) = inl (m, refl)
Lookup-cases not_found = inr (inl refl)
Lookup-cases (broken e) = inr (inr (e, refl))

module _ {Payload : Type 0} where
  -- A tenant always has an organisation and tables: where the defaults are not empty, nor is what the
  -- metadata of a tenant resolve to.
  pub resolve_tenant_metadata-full :
      (c : Client Payload) (tenant : Text) (meta : TenantMetadata)
      → is_empty c.default_org ≡ false
      → is_empty c.default_log_table ≡ false
      → is_empty c.default_trace_table ≡ false
      → resolve_tenant_metadata c tenant ≡ resolved meta
      → (is_empty meta.org ≡ false)
        × (is_empty meta.log_table ≡ false)
        × (is_empty meta.trace_table ≡ false)
  unfolding resolve_tenant_metadata defaults overridden
  resolve_tenant_metadata-full c tenant meta o l t h = elim (Option-cases c.metadata) [
    | inl unset ↦ ground arith
    | inr (lookup, set) ↦ elim (Lookup-cases (lookup tenant)) [
      | inl (own, is_known) ↦ ground arith
      | inr (inl unknown) ↦ ground arith
      | inr (inr (e, bad)) ↦ absurd (ground arith)
    ]
  ]

  -- A PromQL result comes from OpenObserve and says so, or it comes from the fallback and says so,
  -- and then OpenObserve did not support the query.
  pub query_promql-source :
      (c : Client Payload) (tenant : Text) (req : Request) (r : Result Payload)
      → query_promql c tenant req ≡ result r
      → (meta : TenantMetadata) × (resolve_tenant_metadata c tenant ≡ resolved meta)
        × (((r0 : Result Payload) × (c.open_observe meta.org tenant req ≡ result r0)
              × (r ≡ record r0 { backend = codes "openobserve-promql" }))
            ⊎ ((e : Text) × (query : Text → Request → Answer Payload) × (r0 : Result Payload)
                × (c.open_observe meta.org tenant req ≡ unsupported e)
                × (c.fallback ≡ some query)
                × (query tenant req ≡ result r0)
                × (r ≡ record r0 { backend = codes "fallback-promql" })))
  unfolding query_promql fall_back answered_by
  query_promql-source c tenant req r h = elim (Resolved-cases (resolve_tenant_metadata c tenant)) [
    | inr (e, bad) ↦ absurd (ground arith)
    | inl (meta, found) ↦ elim (Answer-cases (c.open_observe meta.org tenant req)) [
      | inl (r0, good) ↦ (meta, found, inl (r0, good, ground arith))
      | inr (inr (e, bad)) ↦ absurd (ground arith)
      | inr (inl (e, not_there)) ↦ elim (Option-cases c.fallback) [
        | inl unset ↦ absurd (ground arith)
        | inr (query, set) ↦ elim (Answer-cases (query tenant req)) [
          | inl (r0, good) ↦ (meta, found, inr (e, query, r0, not_there, set, good, ground arith))
          | inr (inl (e2, bad)) ↦ absurd (ground arith)
          | inr (inr (e2, bad)) ↦ absurd (ground arith)
        ]
      ]
    ]
  ]
