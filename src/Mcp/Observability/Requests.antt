-- ===== src/Mcp/Observability/Requests.antt =====
-- mcp-server/internal/plugins/observability.go: postJSON and queryObserveGateway.
use x_scope_hub_svc_plus.Prelude.{inl, inr, none, some, [], ◌∷◌, ◌++◌, is_empty, leb, if◌then◌else◌}
use x_scope_hub_svc_plus.Prelude.Text.{Text, codes}
use x_scope_hub_svc_plus.Prelude.Headers.{set_header, set_given}
use x_scope_hub_svc_plus.Mcp.Observability.{
  or_default, ObservabilityPlugin, SharedArgs, no_gateway_url, marshal_payload, build_request,
  call_upstream, decode_response, upstream, Outcome, done, failed, QueryPayload, Payload,
  for_gateway, HttpPost, Sent, unsent, replied, Wire,
}

unfoldable pub query_payload : SharedArgs → Text → QueryPayload
query_payload args template = record {
  template = template;
  variables = (codes "service", args.service) ∷ (codes "window", args.window) ∷ [];
  start = args.start;
  end = args.end;
}

module _ (wire : Wire) where
  open wire use {Body, marshal, url_error, canonical, error_member}

  module _ (send : HttpPost → Sent Body) (p : ObservabilityPlugin) where
    -- An answer with status 400 or more is an error; the body is decoded before.
    unfoldable pub read_reply : Text → Sent Body → Outcome Body
    read_reply url (unsent e) = failed (call_upstream url e)
    read_reply url (replied status (inr e)) = failed (decode_response e)
    read_reply url (replied status (inl body)) =
        if leb 400 status then failed (upstream url status (error_member body)) else done body

    unfoldable pub post_json : Text → Payload → Text → Text → Outcome Body
    unfolding read_reply set_header set_given
    post_json url payload tenant user = elim (marshal payload) [
      | inr e ↦ failed (marshal_payload e)
      | inl raw ↦ elim (url_error url) [
        | some e ↦ failed (build_request e)
        | none ↦ read_reply url (
            send (record {
              url = url;
              headers = set_given canonical p.user_hdr user (
                  set_given canonical p.tenant_hdr tenant
                    (set_header canonical (codes "Content-Type") (codes "application/json") []));
              body = raw;
            }))
      ]
    ]

    -- The plugin's tenant and user, where the arguments have none.
    unfoldable pub with_defaults : SharedArgs → SharedArgs
    with_defaults args = record args {
      tenant = or_default p.tenant args.tenant;
      user = or_default p.user args.user;
    }

    unfoldable pub query_observe_gateway : SharedArgs → Text → Outcome Body
    unfolding query_payload post_json
    query_observe_gateway args template =
        if is_empty p.gateway_url
        then failed no_gateway_url
        else post_json (p.gateway_url ++ codes "/api/query")
            (for_gateway (query_payload args template)) args.tenant args.user
