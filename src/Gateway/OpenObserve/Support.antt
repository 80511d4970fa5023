-- ===== src/Gateway/OpenObserve/Support.antt =====
-- When the fallback answers for OpenObserve (observe-gateway/internal/backend/client.go).
use x_scope_hub_svc_plus.Prelude.{
  ℕ, ◌≡◌, refl, ap, ◌∙◌, ◌⊎◌, inl, inr, Option, none, some, [], arith, Option-cases,
}
use x_scope_hub_svc_plus.Prelude.Text.{Text, codes}
use x_scope_hub_svc_plus.Gateway.Query.{Request, has_time_range}
use x_scope_hub_svc_plus.Gateway.Query.Handler.{Result, Answer, result, unsupported}
use x_scope_hub_svc_plus.Gateway.Client.{
  TenantMetadata, Lookup, resolved, resolve_tenant_metadata, query_promql,
}
use x_scope_hub_svc_plus.Gateway.Client.Sources.{query_promql-source}
use x_scope_hub_svc_plus.Gateway.Config.{BackendConfig}
use x_scope_hub_svc_plus.Gateway.OpenObserve.{
  HttpRequest, HttpResponse, Library, OpenObserveClient, PromFallbackClient, prom_url, promql_url,
  apply_headers, read_promql, call, query_open_observe, query_fallback, client_of,
}

module _ (lib : Library) (send : HttpRequest → HttpResponse ⊎ Text) where
  -- OpenObserve was asked for the query, in the name of the tenant and for an organisation, and said
  -- that it does not serve it.
  pub record IsRefused (oo : OpenObserveClient lib) (now : ℕ) (org tenant : Text) (req : Request)
      : Type 0 where
    pub endpoint : Text
    pub response : HttpResponse
    pub configured : prom_url lib oo org (has_time_range req) ≡ inl endpoint
    pub asked :
        send (record {
          method = codes "GET";
          url = promql_url lib send now req endpoint;
          headers = apply_headers lib oo.api_key tenant;
          body = [];
        })
        ≡ inl response
    pub status : (response.status ≡ 404) ⊎ ((response.status ≡ 400) ⊎ (response.status ≡ 501))

  read_promql-unsupported :
      (resp : HttpResponse) (e : Text)
      → read_promql lib resp ≡ unsupported e
      → (resp.status ≡ 404) ⊎ ((resp.status ≡ 400) ⊎ (resp.status ≡ 501))
  unfolding read_promql
  read_promql-unsupported resp e h = ground arith

  Sum-cases : {A B : Type 0} (s : A ⊎ B) → ((a : A) × (s ≡ inl a)) ⊎ ((b : B) × (s ≡ inr b))
  Sum-cases (inl a) = inl (a, refl)
  Sum-cases (inr b) = inr (b, refl)

  call-unsupported :
      (request : HttpRequest) (e : Text)
      → call lib send (read_promql lib) request ≡ unsupported e
      → (resp : HttpResponse) × (send request ≡ inl resp)
        × ((resp.status ≡ 404) ⊎ ((resp.status ≡ 400) ⊎ (resp.status ≡ 501)))
  unfolding call
  call-unsupported request e h = elim (Option-cases (lib.request_error request.url)) [
    | inr (bad, is_bad) ↦ absurd (ground arith)
    | inl good ↦ elim (Sum-cases (send request)) [
      | inr (bad, is_bad) ↦ absurd (ground arith)
      | inl (resp, answered) ↦
          (resp, answered, read_promql-unsupported resp e (rw (good, answered, call) at h))
    ]
  ]

  query_open_observe-unsupported :
      (oo : OpenObserveClient lib) (now : ℕ) (org tenant : Text) (req : Request) (e : Text)
      → query_open_observe lib send oo now org tenant req ≡ unsupported e
      → IsRefused oo now org tenant req
  unfolding query_open_observe
  query_open_observe-unsupported oo now org tenant req e h =
      elim (Sum-cases (prom_url lib oo org (has_time_range req))) [
        | inr (bad, is_bad) ↦ absurd (ground arith)
        | inl (endpoint, found) ↦
            let (resp, answered, status) =
              call-unsupported _ e (rw (found, query_open_observe) at h) in
            record {
              endpoint = endpoint;
              response = resp;
              configured = found;
              asked = answered;
              status = status;
            }
      ]

  client_of-open_observe :
      (cfg : BackendConfig) (now : ℕ) (oo : OpenObserveClient lib)
      (fallback : Option (PromFallbackClient lib)) (metadata : Option (Text → Lookup))
      (org tenant : Text) (req : Request)
      → query_open_observe lib send oo now org tenant req
        ≡ (client_of lib send cfg now oo fallback metadata).open_observe org tenant req
  unfolding client_of
  client_of-open_observe cfg now oo fallback metadata org tenant req = refl

  client_of-fallback :
      (cfg : BackendConfig) (now : ℕ) (oo : OpenObserveClient lib)
      (fallback : Option (PromFallbackClient lib)) (metadata : Option (Text → Lookup))
      (query : Text → Request → Answer Text)
      → (client_of lib send cfg now oo fallback metadata).fallback ≡ some query
      → (fb : PromFallbackClient lib) × (fallback ≡ some fb) × (query_fallback lib send fb ≡ query)
  unfolding client_of
  client_of-fallback cfg now oo none metadata query h = absurd (ground arith)
  client_of-fallback cfg now oo (some fb) metadata query h = (fb, refl, cc)

  -- Who answered a PromQL query: OpenObserve itself, or the fallback, and then only after OpenObserve
  -- was asked for that query, in the tenant's name and for the tenant's organisation, and answered with
  -- one of the statuses 404, 400 and 501. No other failure of OpenObserve reaches the fallback, neither
  -- another 4xx nor a 5xx but 501.
  pub query_promql-IsRefused :
      (cfg : BackendConfig) (now : ℕ) (oo : OpenObserveClient lib)
      (fallback : Option (PromFallbackClient lib)) (metadata : Option (Text → Lookup))
      (tenant : Text) (req : Request) (r : Result Text)
      → query_promql (client_of lib send cfg now oo fallback metadata) tenant req ≡ result r
      → (meta : TenantMetadata) × (resolve_tenant_metadata
            (client_of lib send cfg now oo fallback metadata)
            tenant
          ≡ resolved meta)
        × (((r0 : Result Text) × (query_open_observe lib send oo now meta.org tenant req
                ≡ result r0)
              × (r ≡ record r0 { backend = codes "openobserve-promql" }))
            ⊎ ((fb : PromFallbackClient lib) × (r0 : Result Text) × IsRefused oo now meta.org tenant
                  req
                × (fallback ≡ some fb)
                × (query_fallback lib send fb tenant req ≡ result r0)
                × (r ≡ record r0 { backend = codes "fallback-promql" })))
  query_promql-IsRefused cfg now oo fallback metadata tenant req r h =
      let (meta, found, source) =
        query_promql-source (client_of lib send cfg now oo fallback metadata) tenant req r h in
      elim source [
        | inl (r0, answered, same) ↦ (
          meta,
          found,
          inl (
            r0,
            client_of-open_observe cfg now oo fallback metadata meta.org tenant req ∙ answered,
            same,
          ),
        )
        | inr (e, query, r0, refused, set, answered, same) ↦
            let (fb, there, queries) = client_of-fallback cfg now oo fallback metadata query set in
            (
              meta,
              found,
              inr (
                fb,
                r0,
                query_open_observe-unsupported oo now meta.org tenant req e (
                    client_of-open_observe cfg now oo fallback metadata meta.org tenant req
                    ∙ refused),
                there,
                ap (λ q. q tenant req) queries ∙ answered,
                same,
              ),
            )
      ]
