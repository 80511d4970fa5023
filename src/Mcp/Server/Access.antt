-- ===== src/Mcp/Server/Access.antt =====
-- Who gets to the JSON-RPC methods (mcp-server/internal/server/server.go).
use Prim.Native.String.{◌++◌}
use x_scope_hub_svc_plus.Prelude.{◌≡◌, refl, ◌⊎◌, inl, inr, String, str_eq_iff, arith}
use x_scope_hub_svc_plus.Mcp.Server.{
  Decoded, got, garbled, Wire, Request, Response, Server, HttpRequest, rpc, handle_request,
  serve_mcp, serve_http,
}

Decoded-cases :
    {A : Type 0} (d : Decoded A) → ((a : A) × (d ≡ got a)) ⊎ ((e : String) × (d ≡ garbled e))
Decoded-cases (got a) = inl (a, refl)
Decoded-cases (garbled e) = inr (e, refl)

module _ (wire : Wire) where
  serve_mcp-guards :
      (http : HttpRequest wire) (s : Server wire) (r : Response wire)
      → serve_mcp wire http s ≡ rpc r
      → ((s.auth_token ≡ "") ⊎ (http.authorization ≡ "Bearer " ++ s.auth_token))
        × (http.method ≡ "POST")
        × ((req : Request wire) × (http.body ≡ got req)
            × (r ≡ handle_request wire req http.headers s))
  unfolding serve_mcp
  serve_mcp-guards http s r h =
      let token = str_eq_iff s.auth_token "" in
      let bearer = str_eq_iff http.authorization ("Bearer " ++ s.auth_token) in
      let post = str_eq_iff http.method "POST" in
      elim (Decoded-cases http.body) [
        | inr (e, bad) ↦ absurd (ground arith)
        | inl (req, good) ↦ (ground arith, ground arith, (req, good, ground arith))
      ]

  -- A JSON-RPC request is only handled where it was posted to /mcp with the server's token, if the
  -- server has one.
  pub serve_http-guards :
      (http : HttpRequest wire) (s : Server wire) (r : Response wire)
      → serve_http wire http s ≡ rpc r
      → (http.path ≡ "/mcp")
        × ((s.auth_token ≡ "") ⊎ (http.authorization ≡ "Bearer " ++ s.auth_token))
        × (http.method ≡ "POST")
        × ((req : Request wire) × (http.body ≡ got req)
            × (r ≡ handle_request wire req http.headers s))
  unfolding serve_http
  serve_http-guards http s r h =
      let path = str_eq_iff http.path "/mcp" in
      let at_mcp : serve_mcp wire http s ≡ rpc r = ground arith in
      let (token, post, answered) = serve_mcp-guards http s r at_mcp in
      (ground arith, token, post, answered)
