-- ===== src/Mcp/Server/Tests.antt =====
-- A server with one plugin, and the theorems at it.
use Prim.Native.String.{◌++◌}
use x_scope_hub_svc_plus.Prelude.{◌≡◌, refl, ◌⊎◌, String, Option, none, some, List, [], ◌∷◌}
use x_scope_hub_svc_plus.Prelude.Maps.{lookup, insert}
use x_scope_hub_svc_plus.Mcp.Registry.{Plugin, has_tool, invoke_tool}
use x_scope_hub_svc_plus.Mcp.Server.{
  Outcome, done, got, Wire, Args, Request, tool_result, Server, flatten_headers, decode_params,
  call_args, handle_tools_call, handle_request, result_response, HttpRequest, rpc, authorized,
  serve_http,
}
use x_scope_hub_svc_plus.Mcp.Server.Calls.{IsRun, handle_tools_call-IsRun}
use x_scope_hub_svc_plus.Mcp.Server.Access.{serve_http-guards}

-- The value of the headers is the name of the first one, and a document is a text.
abbrev first_name : List (String × String) → String
first_name [] = ""
first_name ((k, v) ∷ rest) = v

abbrev wire : Wire
wire = record {
  Json = String;
  RpcId = String;
  Manifest = String;
  Value = String;
  decode_name = λ j. got j;
  decode_call = λ j. got (j, some (("_mcp_request_headers", "forged") ∷ []));
  of_headers = first_name;
}

abbrev text_or_none : Option String → String
text_or_none none = ""
text_or_none (some s) = s

abbrev echo : Plugin String (Args wire) (Outcome String)
echo = record {
  id = "echo";
  resources = [];
  tools = record { name = "echo"; description = ""; input_schema = "{}" } ∷ [];
  execute_tool = λ name args. done (text_or_none (lookup "_mcp_request_headers" args));
}

abbrev server : Server wire
server = record { manifest = "m"; registry = echo ∷ []; auth_token = "secret" }

abbrev call : Request wire
call = record { jsonrpc = "2.0"; method = "tools/call"; params = some "echo"; id = "1" }

abbrev headers : List (String × List String)
headers = ("X-Tenant", "acme" ∷ []) ∷ []

abbrev posted : HttpRequest wire
posted = record {
  path = "/mcp";
  method = "POST";
  authorization = "Bearer secret";
  headers = headers;
  body = got call;
}

runs : (handle_tools_call wire call headers server).result ≡ some (tool_result "acme")
unfolding handle_tools_call decode_params call_args flatten_headers lookup insert invoke_tool
    has_tool result_response
runs = refl

handle_tools_call-IsRun_example : IsRun wire call headers server "acme"
handle_tools_call-IsRun_example = handle_tools_call-IsRun wire call headers server "acme" runs

serves : serve_http wire posted server ≡ rpc (handle_request wire call headers server)
unfolding serve_http authorized
serves = refl

serve_http-guards_example :
    (posted.path ≡ "/mcp")
    × ((server.auth_token ≡ "") ⊎ (posted.authorization ≡ "Bearer " ++ server.auth_token))
    × (posted.method ≡ "POST")
    × ((req : Request wire) × (posted.body ≡ got req)
        × (handle_request wire call headers server ≡ handle_request wire req posted.headers server))
serve_http-guards_example =
    serve_http-guards wire posted server (handle_request wire call headers server) serves
