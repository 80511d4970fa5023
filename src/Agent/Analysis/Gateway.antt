-- ===== src/Agent/Analysis/Gateway.antt =====
-- llm-ops-agent/internal/analysis/service.go: newGatewayClient and its Query.
-- encoding/json and net/http are a record that the section takes; a function says what is answered
-- to a request that is sent. The timeout of the client is left out.
use x_scope_hub_svc_plus.Prelude.{
  ℕ, ◌≡◌, refl, ◌⊎◌, inl, inr, Bool, ◌||◌, Option, none, some, List, [], ◌∷◌, ◌++◌, ◌==◌, is_empty,
  leb, if◌then◌else◌,
}
use x_scope_hub_svc_plus.Prelude.Text.{Text, codes, text_eq, trim_space, trim_right}
use x_scope_hub_svc_plus.Prelude.Headers.{set_header, set_given}
use x_scope_hub_svc_plus.Agent.Numbers.{decimal}
use x_scope_hub_svc_plus.Agent.Analysis.Count.{Json}
use x_scope_hub_svc_plus.Agent.Analysis.Normalize.{is_blank}

pub record GatewayOptions : Type 0 where
  pub endpoint : Text
  pub headers : List (Text × Text)
  pub tenant_header : Text
  pub user_header : Text

pub record GatewayClient : Type 0 where
  pub endpoint : Text
  pub headers : List (Text × Text)
  pub tenant_header : Text
  pub user_header : Text

-- The members of queryRequest that the agent sets; the others are empty and are not sent.
pub record QueryRequest : Type 0 where
  pub template : Text
  pub variables : List (Text × Text)
  pub start : ℕ
  pub end : ℕ

pub record QueryResponse : Type 0 where
  pub lang : Text
  pub result : Text
  pub backend : Text
  pub cached : Bool

pub data Outcome (A : Type 0) : Type 0 where
  got : A → Outcome A
  failed : Text → Outcome A

pub Outcome-cases :
    {A : Type 0} (o : Outcome A) → ((a : A) × (o ≡ got a)) ⊎ ((e : Text) × (o ≡ failed e))
Outcome-cases (got a) = inl (a, refl)
Outcome-cases (failed e) = inr (e, refl)

pub record HttpPost : Type 0 where
  pub url : Text
  pub headers : List (Text × Text)
  pub body : Text

pub data Sent : Type 0 where
  unsent unread : Text → Sent
  replied : ℕ → Text → Sent

-- What the packages json and http do for the client.
pub record Wire : Type 0 where
  pub marshal : QueryRequest → Outcome Text
  pub url_error : Text → Option Text
  pub canonical : Text → Text  -- the canonical form of a header's name
  pub error_member : Text → Option Text  -- the string under "error", empty where there is none
  pub decode_response : Text → Outcome QueryResponse
  pub unmarshal : Text → Option Json

unfoldable pub has_suffix : Text → Text → Bool
unfolding text_eq
has_suffix suffix [] = text_eq suffix []
has_suffix suffix (c ∷ s) = text_eq suffix (c ∷ s) || has_suffix suffix s

abbrev pub or_default : Text → Text → Text
or_default default s = if is_empty s then default else s

unfoldable pub new_gateway_client : GatewayOptions → Outcome GatewayClient
unfolding has_suffix
new_gateway_client opts =
    let endpoint = trim_space opts.endpoint in
    if is_empty endpoint
    then failed (codes "observe_gateway endpoint is required")
    else got (record {
      endpoint =
          if has_suffix (codes "/api/query") endpoint
          then endpoint
          else trim_right (λ c. c == b'/') endpoint ++ codes "/api/query";
      headers = opts.headers;
      tenant_header = or_default (codes "X-Tenant") (trim_space opts.tenant_header);
      user_header = or_default (codes "X-User") (trim_space opts.user_header);
    })

module _ (wire : Wire) where
  unfoldable pub set_headers : List (Text × Text) → List (Text × Text) → List (Text × Text)
  unfolding set_header
  set_headers [] headers = headers
  set_headers ((k, v) ∷ more) headers = set_headers more (set_header wire.canonical k v headers)

  unfoldable pub request_headers : GatewayClient → Text → Text → List (Text × Text)
  unfolding set_headers set_given
  request_headers client tenant user = set_given wire.canonical client.user_header user (
      set_given wire.canonical client.tenant_header tenant (
        set_headers client.headers
          (set_header wire.canonical (codes "Content-Type") (codes "application/json") [])))

  -- The error of an answer with status 400 or more.
  unfoldable pub status_error : ℕ → Text → Text
  unfolding decimal
  status_error status body =
      let returned : Text = codes "observe-gateway returned " ++ decimal status in
      elim (wire.error_member body) [
        | none ↦ returned
        | some e ↦ if is_blank e then returned else codes "observe-gateway: " ++ e
      ]

  unfoldable pub read_reply : Sent → Outcome QueryResponse
  unfolding status_error
  read_reply (unsent e) = failed (codes "call observe-gateway: " ++ e)
  read_reply (unread e) = failed (codes "read observe-gateway response: " ++ e)
  read_reply (replied status body) =
      if leb 400 status
      then failed (status_error status body)
      else elim (wire.decode_response body) [
        | failed e ↦ failed (codes "decode observe-gateway response: " ++ e)
        | got r ↦ got r
      ]

  unfoldable pub query :
      (HttpPost → Sent) → GatewayClient → Text → Text → QueryRequest → Outcome QueryResponse
  unfolding request_headers read_reply
  query send client tenant user payload = elim (wire.marshal payload) [
    | failed e ↦ failed (codes "marshal gateway query: " ++ e)
    | got body ↦ elim (wire.url_error client.endpoint) [
      | some e ↦ failed (codes "build gateway request: " ++ e)
      | none ↦ read_reply (
          send (record {
            url = client.endpoint;
            headers = request_headers client tenant user;
            body = body;
          }))
    ]
  ]
