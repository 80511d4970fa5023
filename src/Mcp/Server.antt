-- ===== src/Mcp/Server.antt =====
-- mcp-server/internal/server/server.go: the HTTP endpoint and its JSON-RPC methods.
-- JSON documents, ids and the manifest are values of types that the section takes, with the decoders
-- of parameters; a message of an error is its format with what it was formatted from.
pub mod Calls
pub mod Access
mod Tests
use Prim.Native.String.{◌++◌}
use x_scope_hub_svc_plus.Prelude.{
  String, Bool, true, false, not, ◌&&◌, Option, none, some, List, [], ◌∷◌, str_eq, if◌then◌else◌,
}
use x_scope_hub_svc_plus.Prelude.Maps.{insert}
use x_scope_hub_svc_plus.Mcp.Registry.{
  ResourceDescriptor, ResourcePayload, ToolDescriptor, Plugin, list_resources, resource, list_tools,
  invoke_tool,
}

pub data Outcome (Value : Type 0) : Type 0 where
  done : Value → Outcome Value
  failed : String → Outcome Value

pub data Decoded (A : Type 0) : Type 0 where
  got : A → Decoded A
  garbled : String → Decoded A

-- The codes -32601, -32602 and -32000.
pub data Code : Type 0 where
  method_not_found invalid_params server_error : Code

pub data Message : Type 0 where
  missing_params : Message
  no_method bad_params no_resource no_tool tool_failed : String → Message

pub record Error : Type 0 where
  pub code : Code
  pub message : Message

pub data Params (A : Type 0) : Type 0 where
  given : A → Params A
  invalid : Error → Params A

-- What the packages json and http do for the server.
pub record Wire : Type 1 where
  pub Json : Type 0
  pub RpcId : Type 0
  pub Manifest : Type 0
  pub Value : Type 0  -- a value in the arguments of a tool
  pub decode_name : Json → Decoded String
  pub decode_call : Json → Decoded (String × Option (List (String × Value)))  -- none is a nil map
  pub of_headers : List (String × String) → Value

module _ (wire : Wire) where
  open wire use {Json, RpcId, Manifest, Value, decode_name, decode_call, of_headers}

  abbrev pub Args : Type 0
  Args = List (String × Value)

  abbrev pub Registry : Type 0
  Registry = List (Plugin Json Args (Outcome Value))

  pub record Request : Type 0 where
    pub jsonrpc : String
    pub method : String
    pub params : Option Json
    pub id : RpcId

  pub record ManifestPayload : Type 0 where
    pub manifest : Manifest
    pub resources : List ResourceDescriptor
    pub tools : List ToolDescriptor

  pub data Answer : Type 0 where
    resources : List ResourceDescriptor → Answer
    resource_payload : ResourcePayload Json → Answer
    tools : List ToolDescriptor → Answer
    tool_result : Value → Answer
    manifest_payload_of : ManifestPayload → Answer

  pub record Response : Type 0 where
    pub jsonrpc : String
    pub id : RpcId
    pub result : Option Answer
    pub error : Option Error

  pub record Server : Type 0 where
    pub manifest : Manifest
    pub registry : Registry
    pub auth_token : String

  -- Request headers, each with its values.
  unfoldable pub flatten_headers : List (String × List String) → List (String × String)
  flatten_headers [] = []
  flatten_headers ((key, []) ∷ headers) = flatten_headers headers
  flatten_headers ((key, v ∷ vs) ∷ headers) = insert key v (flatten_headers headers)

  unfoldable pub manifest_payload : Server → ManifestPayload
  manifest_payload s = record {
    manifest = s.manifest;
    resources = list_resources s.registry;
    tools = list_tools s.registry;
  }

  unfoldable pub error_response : RpcId → Code → Message → Response
  error_response id code message = record {
    jsonrpc = "2.0";
    id = id;
    result = none;
    error = some (record { code = code; message = message });
  }

  unfoldable pub result_response : RpcId → Answer → Response
  result_response id answer = record {
    jsonrpc = "2.0";
    id = id;
    result = some answer;
    error = none;
  }

  -- decodeParams, with the decoder for the method's parameters.
  unfoldable pub decode_params : {A : Type 0} → (Json → Decoded A) → Option Json → Params A
  decode_params decode none = invalid (record { code = invalid_params; message = missing_params })
  decode_params decode (some raw) = elim (decode raw) [
    | got a ↦ given a
    | garbled e ↦ invalid (record { code = invalid_params; message = bad_params e })
  ]

  -- The resource under a name.
  resource_response : RpcId → String → Server → Response
  unfolding result_response error_response
  resource_response id name s = elim (resource name s.registry) [
    | none ↦ error_response id server_error (no_resource name)
    | some payload ↦ result_response id (resource_payload payload)
  ]

  unfoldable pub handle_resource_get : Request → Server → Response
  unfolding decode_params resource_response error_response
  handle_resource_get req s = elim (decode_params decode_name req.params) [
    | invalid e ↦ error_response req.id e.code e.message
    | given name ↦ resource_response req.id name s
  ]

  -- The arguments of a call, with the headers of the HTTP request among them.
  unfoldable pub call_args : Option Args → List (String × List String) → Args
  unfolding flatten_headers
  call_args none headers = insert "_mcp_request_headers" (of_headers (flatten_headers headers)) []
  call_args (some args) headers =
      insert "_mcp_request_headers" (of_headers (flatten_headers headers)) args

  -- What the registry answers to a call.
  outcome_response : RpcId → String → Option (Outcome Value) → Response
  unfolding result_response error_response
  outcome_response id name none = error_response id server_error (no_tool name)
  outcome_response id name (some (failed e)) = error_response id server_error (tool_failed e)
  outcome_response id name (some (done v)) = result_response id (tool_result v)

  unfoldable pub handle_tools_call : Request → List (String × List String) → Server → Response
  unfolding decode_params call_args outcome_response error_response
  handle_tools_call req headers s = elim (decode_params decode_call req.params) [
    | invalid e ↦ error_response req.id e.code e.message
    | given (name, args) ↦
        outcome_response req.id name (invoke_tool name (call_args args headers) s.registry)
  ]

  unfoldable pub handle_request : Request → List (String × List String) → Server → Response
  unfolding handle_resource_get handle_tools_call result_response manifest_payload error_response
  handle_request req headers s =
      if str_eq req.method "resources/list"
      then result_response req.id (resources (list_resources s.registry))
      else if str_eq req.method "resources/get"
      then handle_resource_get req s
      else if str_eq req.method "tools/list"
      then result_response req.id (tools (list_tools s.registry))
      else if str_eq req.method "tools/call"
      then handle_tools_call req headers s
      else if str_eq req.method "manifest/get"
      then result_response req.id (manifest_payload_of (manifest_payload s))
      else error_response req.id method_not_found (no_method req.method)

  -- An HTTP request: its body as far as it could be read and decoded.
  pub record HttpRequest : Type 0 where
    pub path : String
    pub method : String
    pub authorization : String
    pub headers : List (String × List String)
    pub body : Decoded Request

  pub data HttpReply : Type 0 where
    not_found unauthorized only_post only_get health : HttpReply
    bad_request : String → HttpReply
    manifest_reply : ManifestPayload → HttpReply
    rpc : Response → HttpReply

  -- header == "Bearer " + expected
  unfoldable pub authorized : String → String → Bool
  authorized header expected = str_eq header ("Bearer " ++ expected)

  -- The path /mcp.
  serve_mcp : HttpRequest → Server → HttpReply
  unfolding authorized handle_request
  serve_mcp http s =
      if not (str_eq s.auth_token "") && not (authorized http.authorization s.auth_token)
      then unauthorized
      else if not (str_eq http.method "POST")
      then only_post
      else elim http.body [
        | garbled e ↦ bad_request e
        | got req ↦ rpc (handle_request req http.headers s)
      ]

  unfoldable pub serve_http : HttpRequest → Server → HttpReply
  unfolding serve_mcp manifest_payload
  serve_http http s =
      if str_eq http.path "/healthz"
      then (if str_eq http.method "GET" then health else only_get)
      else if str_eq http.path "/manifest"
      then (if str_eq http.method "GET" then manifest_reply (manifest_payload s) else only_get)
      else if str_eq http.path "/mcp"
      then serve_mcp http s
      else not_found
