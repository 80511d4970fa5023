-- ===== src/Mcp/Server/Calls.antt =====
-- JSON-RPC answers, and what a tool is given (mcp-server/internal/server/server.go).
use mathlib.Core.List.{Memᴰ}
use x_scope_hub_svc_plus.Prelude.{
  ◌≡◌, refl, ◌⊎◌, inl, inr, String, Bool, true, false, Option, none, some, List, str_eq, arith,
  Option-cases, if◌then◌else◌,
}
use x_scope_hub_svc_plus.Prelude.Maps.{lookup, lookup-insert}
use x_scope_hub_svc_plus.Mcp.Registry.{Plugin, has_tool, list_tools, resource, list_resources}
use x_scope_hub_svc_plus.Mcp.Registry.Lookup.{invoke_tool-listed}
use x_scope_hub_svc_plus.Mcp.Server.{
  Outcome, done, failed, Code, method_not_found, Message, no_method, Error, Params, given, invalid,
  Wire, Args, Request, Answer, resources, tools, tool_result, manifest_payload_of, Response, Server,
  flatten_headers, manifest_payload, error_response, result_response, decode_params,
  resource_response, handle_resource_get, call_args, outcome_response, handle_tools_call,
  handle_request,
}

Params-cases :
    {A : Type 0} (p : Params A) → ((a : A) × (p ≡ given a)) ⊎ ((e : Error) × (p ≡ invalid e))
Params-cases (given a) = inl (a, refl)
Params-cases (invalid e) = inr (e, refl)

Outcome-cases :
    {V : Type 0} (o : Outcome V) → ((v : V) × (o ≡ done v)) ⊎ ((e : String) × (o ≡ failed e))
Outcome-cases (done v) = inl (v, refl)
Outcome-cases (failed e) = inr (e, refl)

module _ (wire : Wire) where
  open wire use {Json, RpcId, Value, decode_name, decode_call, of_headers}

  -- An answer in the form that JSON-RPC asks for: the id of the request, and a result or an error.
  pub record IsFormed (id : RpcId) (r : Response wire) : Type 0 where
    pub is_version : r.jsonrpc ≡ "2.0"
    pub is_id : r.id ≡ id
    pub is_one :
        ((a : Answer wire) × (r.result ≡ some a) × (r.error ≡ none))
        ⊎ ((e : Error) × (r.result ≡ none) × (r.error ≡ some e))

  error_response-IsFormed :
      (id : RpcId) (c : Code) (m : Message) → IsFormed id (error_response wire id c m)
  unfolding error_response
  error_response-IsFormed id c m = record {
    is_version = refl;
    is_id = refl;
    is_one = inr (record { code = c; message = m }, refl, refl);
  }

  result_response-IsFormed :
      (id : RpcId) (a : Answer wire) → IsFormed id (result_response wire id a)
  unfolding result_response
  result_response-IsFormed id a = record {
    is_version = refl;
    is_id = refl;
    is_one = inl (a, refl, refl);
  }

  resource_response-IsFormed :
      (id : RpcId) (name : String) (s : Server wire)
      → IsFormed id (resource_response wire id name s)
  unfolding resource_response
  resource_response-IsFormed id name s = elim (Option-cases (resource name s.registry)) [
    | inl missing ↦ rw (missing, resource_response) (error_response-IsFormed id _ _)
    | inr (payload, found) ↦ rw (found, resource_response) (result_response-IsFormed id _)
  ]

  handle_resource_get-IsFormed :
      (req : Request wire) (s : Server wire) → IsFormed req.id (handle_resource_get wire req s)
  unfolding handle_resource_get
  handle_resource_get-IsFormed req s =
      elim (Params-cases (decode_params wire decode_name req.params)) [
        | inl (name, good) ↦
            rw (good, handle_resource_get) (resource_response-IsFormed req.id name s)
        | inr (e, bad) ↦
            rw (bad, handle_resource_get) (error_response-IsFormed req.id e.code e.message)
      ]

  outcome_response-IsFormed :
      (id : RpcId) (name : String) (o : Option (Outcome Value))
      → IsFormed id (outcome_response wire id name o)
  unfolding outcome_response
  outcome_response-IsFormed id name none = error_response-IsFormed id _ _
  outcome_response-IsFormed id name (some (failed e)) = error_response-IsFormed id _ _
  outcome_response-IsFormed id name (some (done v)) = result_response-IsFormed id _

  handle_tools_call-IsFormed :
      (req : Request wire) (headers : List (String × List String)) (s : Server wire)
      → IsFormed req.id (handle_tools_call wire req headers s)
  unfolding handle_tools_call
  handle_tools_call-IsFormed req headers s =
      elim (Params-cases (decode_params wire decode_call req.params)) [
        | inl ((name, args), good) ↦
            rw (good, handle_tools_call) (outcome_response-IsFormed req.id name _)
        | inr (e, bad) ↦
            rw (bad, handle_tools_call) (error_response-IsFormed req.id e.code e.message)
      ]

  either :
      (id : RpcId) (b : Bool) (x y : Response wire)
      → IsFormed id x
      → IsFormed id y
      → IsFormed id (if b then x else y)
  either id true x y hx hy = hx
  either id false x y hx hy = hy

  -- Every request is answered under its own id, with the version 2.0, and with a result or an error
  -- and not both.
  pub handle_request-IsFormed :
      (req : Request wire) (headers : List (String × List String)) (s : Server wire)
      → IsFormed req.id (handle_request wire req headers s)
  unfolding handle_request
  handle_request-IsFormed req headers s =
      let is = str_eq req.method in
      let listed = result_response-IsFormed req.id in
      either req.id (is "resources/list") _ _ (listed (resources (list_resources s.registry))) (
        either req.id (is "resources/get") _ _ (handle_resource_get-IsFormed req s) (
          either req.id (is "tools/list") _ _ (listed (tools (list_tools s.registry))) (
            either req.id (is "tools/call") _ _ (handle_tools_call-IsFormed req headers s) (
              either req.id (is "manifest/get") _ _
                (listed (manifest_payload_of (manifest_payload wire s)))
                (error_response-IsFormed req.id method_not_found (no_method req.method))))))

  call_args-headers :
      (args : Option (Args wire)) (headers : List (String × List String))
      → lookup "_mcp_request_headers" (call_args wire args headers)
        ≡ some (of_headers (flatten_headers wire headers))
  unfolding call_args
  call_args-headers none headers = rw lookup-insert refl
  call_args-headers (some args) headers = rw lookup-insert refl

  -- What the client sent under a key of its arguments, which may be absent.
  abbrev pub sent_under : String → Option (Args wire) → Option Value
  sent_under key none = none
  sent_under key (some sent) = lookup key sent

  call_args-kept :
      (sent : Option (Args wire)) (headers : List (String × List String)) (key : String)
      → str_eq "_mcp_request_headers" key ≡ false
      → lookup key (call_args wire sent headers) ≡ sent_under key sent
  unfolding call_args lookup
  call_args-kept none headers key other = rw (lookup-insert, other) refl
  call_args-kept (some sent) headers key other = rw (lookup-insert, other) refl

  -- What a tool call ran: a plugin of the registry that lists the tool that the request names, on what
  -- the request gives under each key, with the headers of the HTTP request under their own.
  pub record IsRun (req : Request wire) (headers : List (String × List String)) (s : Server wire)
      (v : Value) : Type 0 where
    pub name : String
    pub sent : Option (Args wire)
    pub asked : decode_params wire decode_call req.params ≡ given (name, sent)
    pub args : Args wire
    pub plugin : Plugin Json (Args wire) (Outcome Value)
    pub registered : Memᴰ plugin s.registry
    pub listed : has_tool name plugin.tools ≡ true
    pub ran : plugin.execute_tool name args ≡ done v
    pub told : lookup "_mcp_request_headers" args ≡ some (of_headers (flatten_headers wire headers))
    pub kept :
        (key : String)
        → str_eq "_mcp_request_headers" key ≡ false
        → lookup key args ≡ sent_under key sent

  -- The result of a tool call is what a registered plugin that lists the tool named in the request made
  -- of the request's arguments, all of them as the client sent them but the headers, which are those of
  -- the HTTP request, also where the client sent others.
  pub handle_tools_call-IsRun :
      (req : Request wire) (headers : List (String × List String)) (s : Server wire) (v : Value)
      → (handle_tools_call wire req headers s).result ≡ some (tool_result v)
      → IsRun req headers s v
  unfolding handle_tools_call outcome_response error_response result_response
  handle_tools_call-IsRun req headers s v h =
      elim (Params-cases (decode_params wire decode_call req.params)) [
        | inr (e, bad) ↦ absurd (ground arith)
        | inl ((name, args), good) ↦
            elim (invoke_tool-listed name (call_args wire args headers) s.registry) [
              | inl (missing, _) ↦ absurd (ground arith)
              | inr (p, member, lists, _, ran) ↦
                  elim (Outcome-cases (p.execute_tool name (call_args wire args headers))) [
                    | inr (e, bad) ↦ absurd (ground arith)
                    | inl (w, worked) ↦ record {
                      name = name;
                      sent = args;
                      asked = good;
                      args = call_args wire args headers;
                      plugin = p;
                      registered = member;
                      listed = lists;
                      ran = ground arith;
                      told = call_args-headers args headers;
                      kept = call_args-kept args headers;
                    }
                  ]
            ]
      ]
