-- ===== src/Mcp/Observability.antt =====
-- mcp-server/internal/plugins/observability.go: the tools that ask the gateway and the agent.
-- encoding/json, net/http and the parsers of times and durations are a record that the section takes,
-- with the decoder of the shared arguments; a function says what is answered to a request. A time is a
-- number of nanoseconds, 0 the zero time. Init, which keeps a value that nothing reads, is left out.
pub mod Arguments
pub mod Requests
pub mod Tools
pub mod Listed
pub mod Accepted
pub mod Parsed
pub mod Guarded
mod Tests
use x_scope_hub_svc_plus.Prelude.{
  ℕ, ◌≡◌, refl, ◌⊎◌, inl, inr, Bool, true, false, ◌||◌, Option, none, some, List, [], ◌∷◌, ◌++◌,
  ◌-◌, String, str_eq, ◌==◌, is_empty, leb, if◌then◌else◌,
}
use x_scope_hub_svc_plus.Prelude.Text.{Text, codes, text_eq, trim_space, trim_right}
use x_scope_hub_svc_plus.Prelude.Time.{Duration, is_zero, before, one_hour}
use x_scope_hub_svc_plus.Prelude.Headers.{set_header, set_given}
use x_scope_hub_svc_plus.Mcp.Registry.{ResourcePayload, ToolDescriptor, Plugin}

pub record ObservabilityPluginConfig : Type 0 where
  pub observe_gateway_url : Text
  pub llm_ops_agent_url : Text
  pub default_tenant : Text
  pub default_user : Text
  pub tenant_header : Text
  pub user_header : Text

pub record ObservabilityPlugin : Type 0 where
  pub gateway_url : Text
  pub agent_url : Text
  pub tenant : Text
  pub user : Text
  pub tenant_hdr : Text
  pub user_hdr : Text

abbrev pub or_default : Text → Text → Text
or_default default s = if is_empty s then default else s

-- strings.TrimRight(s, "/")
abbrev without_slash : Text → Text
without_slash s = trim_right (λ c. c == b'/') s

-- The timeout of the client is left out.
unfoldable pub new_observability_plugin : ObservabilityPluginConfig → ObservabilityPlugin
new_observability_plugin cfg = record {
  gateway_url = without_slash cfg.observe_gateway_url;
  agent_url = without_slash cfg.llm_ops_agent_url;
  tenant = cfg.default_tenant;
  user = cfg.default_user;
  tenant_hdr = or_default (codes "X-Tenant") (trim_space cfg.tenant_header);
  user_hdr = or_default (codes "X-User") (trim_space cfg.user_header);
}

-- The arguments as they are decoded; a header is none where its value is no string.
pub record SharedArgs : Type 0 where
  pub service : Text
  pub tenant : Text
  pub user : Text
  pub incident : Text
  pub metric : Text
  pub window : Text
  pub prompt : Text
  pub start_raw : Text
  pub end_raw : Text
  pub headers : List (Text × Option Text)
  pub start : ℕ
  pub end : ℕ

pub data ToolError : Type 0 where
  unknown_tool : String → ToolError
  no_agent_url no_gateway_url service_required : ToolError
  decode_args invalid_start invalid_end marshal_payload build_request : Text → ToolError
  call_upstream : Text → Text → ToolError
  decode_response : Text → ToolError
  upstream : Text → ℕ → Text → ToolError  -- the URL, the status and the message, if there is one

pub data Outcome (A : Type 0) : Type 0 where
  done : A → Outcome A
  failed : ToolError → Outcome A

pub Outcome-cases :
    {A : Type 0} (o : Outcome A) → ((a : A) × (o ≡ done a)) ⊎ ((e : ToolError) × (o ≡ failed e))
Outcome-cases (done a) = inl (a, refl)
Outcome-cases (failed e) = inr (e, refl)

unfoldable pub then_do : {A B : Type 0} → Outcome A → (A → Outcome B) → Outcome B
then_do (done a) next = next a
then_do (failed e) next = failed e

pub record QueryPayload : Type 0 where
  pub template : Text
  pub variables : List (Text × Text)
  pub start : ℕ
  pub end : ℕ

pub record AnalysisPayload : Type 0 where
  pub goal : String
  pub tenant : Text
  pub user : Text
  pub service : Text
  pub incident : Text
  pub window : Text
  pub start : ℕ
  pub end : ℕ
  pub prompt : Text

pub data Payload : Type 0 where
  for_gateway : QueryPayload → Payload
  for_agent : AnalysisPayload → Payload

pub record HttpPost : Type 0 where
  pub url : Text
  pub headers : List (Text × Text)
  pub body : Text

pub data Sent (Body : Type 0) : Type 0 where
  unsent : Text → Sent Body
  replied : ℕ → Body ⊎ Text → Sent Body  -- the status, and the body or the error of its decoding

-- The output of a tool: what query_metrics answers, what the queries of a template answer, and what
-- the agent does.
pub data Output (Body : Type 0) : Type 0 where
  metrics : (tenant service window : Text) → List (Text × Body) → Output Body
  templated : (tenant service window template : Text) → Body → Output Body
  analysis : Body → Output Body

pub record ToolResult (Body : Type 0) : Type 0 where
  pub name : String
  pub output : Output Body

-- What the packages json, http and time do for the plugin.
pub record Wire : Type 1 where
  pub Args : Type 0
  pub Body : Type 0
  pub decode : Args → SharedArgs ⊎ Text  -- the times are those of the record's zero value
  pub parse_time : Text → ℕ ⊎ Text
  pub parse_duration : Text → Option Duration
  pub marshal : Payload → Text ⊎ Text
  pub url_error : Text → Option Text
  pub canonical : Text → Text
  pub error_member : Body → Text  -- the string under "error", empty where there is none
