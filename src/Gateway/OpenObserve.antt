-- ===== src/Gateway/OpenObserve.antt =====
-- observe-gateway/internal/backend/client.go: the HTTP clients of OpenObserve and of the fallback, and
-- New, which makes the client of Gateway/Client.antt of them.
-- net/url, net/http, encoding/json, fmt.Sprintf and the formats of numbers are a record that the
-- section takes; a function says what is answered to a request. A payload is the bytes of a body.
-- The timeouts are left out.
pub mod Support
mod Tests
use x_scope_hub_svc_plus.Prelude.{
  ℕ, ◌-◌, ◌%◌, Bool, true, false, not, ◌&&◌, ◌||◌, ◌⊎◌, inl, inr, Option, none, some, List, [], ◌∷◌,
  ◌++◌, ◌==◌, is_empty, leb, if◌then◌else◌,
}
use x_scope_hub_svc_plus.Prelude.Text.{Text, codes, cut, after_prefix}
use x_scope_hub_svc_plus.Prelude.Headers.{set_header, set_given}
use x_scope_hub_svc_plus.Prelude.Time.{Duration, is_positive}
use x_scope_hub_svc_plus.Agent.Numbers.{two_to_63, two_to_64, Magnitude, number, parse_uint}
use x_scope_hub_svc_plus.Gateway.Query.{Request, has_time_range}
use x_scope_hub_svc_plus.Gateway.Query.Handler.{Result, Answer, result, unsupported, failed}
use x_scope_hub_svc_plus.Gateway.Client.{Client, Lookup, SearchBody}
use x_scope_hub_svc_plus.Gateway.Config.{OpenObserveConfig, FallbackConfig, BackendConfig}

pub record HttpRequest : Type 0 where
  pub method : Text
  pub url : Text
  pub headers : List (Text × Text)
  pub body : Text

pub record HttpResponse : Type 0 where
  pub status : ℕ
  pub header : Text → Text
  pub body : Text

-- What the packages do for the clients.
pub record Library : Type 1 where
  pub Url : Type 0
  pub parse_url : Text → Url ⊎ Text
  pub joined : Url → Text → Text  -- the URL with the relative path joined to its own
  pub with_params : Url → List (Text × Text) → Text
  pub sprintf : Text → Text → Text
  pub seconds_text : ℕ → Text  -- a time in seconds since 1970
  pub duration_text : Duration → Text  -- a duration in seconds
  pub parse_duration : Text → Option Duration
  pub request_error : Text → Option Text
  pub canonical : Text → Text
  pub encode : SearchBody → Text

-- The bits of an int64, where it has room for the number.
unfoldable pub signed : Bool → ℕ → Option ℕ
signed minus n =
    if minus
    then (if leb n two_to_63 then some ((two_to_64 - n) % two_to_64) else none)
    else (if leb two_to_63 n then none else some n)

-- The magnitude with a sign, and none for an error.
unfoldable pub with_sign : Bool → Magnitude → Option ℕ
unfolding signed
with_sign minus Magnitude.syntax_error = none
with_sign minus Magnitude.range_error = none
with_sign minus (number n) = signed minus n

-- strconv.ParseInt, with an int64 as its bits
unfoldable pub parse_int64 : Text → Option ℕ
unfolding parse_uint with_sign
parse_int64 [] = none
parse_int64 (c ∷ s) =
    if c == b'-'
    then with_sign true (parse_uint s)
    else if c == b'+'
    then with_sign false (parse_uint s)
    else with_sign false (parse_uint (c ∷ s))

module _ (lib : Library) where
  open lib use {
    Url, parse_url, joined, with_params, sprintf, seconds_text, duration_text, parse_duration,
    request_error, canonical, encode,
  }

  pub record OpenObserveClient : Type 0 where
    pub base_url : Url
    pub default_org : Text
    pub api_key : Text
    pub prom_query : Text
    pub prom_range : Text
    pub log_search : Text
    pub trace_search : Text

  pub record PromFallbackClient : Type 0 where
    pub base_url : Url
    pub query_path : Text
    pub range_path : Text
    pub api_key : Text

  unfoldable pub new_open_observe_client : OpenObserveConfig → OpenObserveClient ⊎ Text
  new_open_observe_client cfg =
      if is_empty cfg.base_url
      then inr (codes "openobserve base_url required")
      else elim (parse_url cfg.base_url) [
        | inr e ↦ inr (codes "parse base_url: " ++ e)
        | inl parsed ↦ inl (record {
          base_url = parsed;
          default_org = cfg.org;
          api_key = cfg.api_key;
          prom_query = cfg.prom_query_endpoint;
          prom_range = cfg.prom_range_endpoint;
          log_search = cfg.log_search_endpoint;
          trace_search = cfg.trace_search_endpoint;
        })
      ]

  unfoldable pub new_prom_fallback_client : FallbackConfig → PromFallbackClient ⊎ Text
  new_prom_fallback_client cfg =
      if is_empty cfg.base_url
      then inr (codes "fallback base_url required")
      else elim (parse_url cfg.base_url) [
        | inr e ↦ inr (codes "parse fallback base_url: " ++ e)
        | inl parsed ↦ inl (record {
          base_url = parsed;
          query_path = cfg.query_endpoint;
          range_path = cfg.range_endpoint;
          api_key = cfg.api_key;
        })
      ]

  -- resolve: an endpoint that begins with http stands for itself.
  unfoldable pub resolve : Url → Text → Text
  unfolding after_prefix
  resolve base rel = elim (after_prefix (codes "http") rel) [
    | some rest ↦ rel
    | none ↦ joined base rel
  ]

  unfoldable pub resolve_org : OpenObserveClient → Text → Text
  resolve_org c org = if is_empty org then c.default_org else org

  -- An endpoint with the organisation in it, if it has a place for one.
  unfoldable pub for_org : OpenObserveClient → Text → Text → Text
  unfolding cut resolve_org resolve
  for_org c endpoint org = elim (cut (codes "%s") endpoint) [
    | none ↦ resolve c.base_url endpoint
    | some p ↦ resolve c.base_url (sprintf endpoint (resolve_org c org))
  ]

  unfoldable pub prom_url : OpenObserveClient → Text → Bool → Text ⊎ Text
  unfolding for_org
  prom_url c org is_range =
      let endpoint = if is_range then c.prom_range else c.prom_query in
      if is_empty endpoint
      then inr (codes "promql endpoint not configured")
      else inl (for_org c endpoint org)

  unfoldable pub fallback_url : PromFallbackClient → Bool → Text
  unfolding resolve
  fallback_url c is_range =
      let endpoint = if is_range then c.range_path else c.query_path in
      if is_empty endpoint
      then resolve c.base_url
          (if is_range then codes "/api/v1/query_range" else codes "/api/v1/query")
      else resolve c.base_url endpoint

  -- The time under a name, where it is set.
  unfoldable pub time_param : Text → Option ℕ → List (Text × Text)
  time_param name none = []
  time_param name (some t) = (name, seconds_text t) ∷ []

  unfoldable pub step_param : Text → List (Text × Text)
  unfolding is_positive
  step_param step = if is_empty step then [] else elim (parse_duration step) [
    | none ↦ []
    | some d ↦ if is_positive d then (codes "step", duration_text d) ∷ [] else []
  ]

  unfoldable pub range_params : Request → List (Text × Text)
  unfolding time_param step_param
  range_params req =
      time_param (codes "start") req.start
      ++ time_param (codes "end") req.end
      ++ step_param req.step

  unfoldable pub apply_headers : Text → Text → List (Text × Text)
  unfolding set_header set_given
  apply_headers api_key tenant = set_given canonical (codes "X-Tenant") tenant (
      if is_empty api_key
      then []
      else set_header canonical (codes "Authorization") (codes "Bearer " ++ api_key) [])

  unfoldable pub parse_cost : (Text → Text) → ℕ
  unfolding parse_int64
  parse_cost header =
      let own = header (codes "X-Query-Cost") in
      let val = if is_empty own then header (codes "X-O2-Query-Cost") else own in
      elim (parse_int64 val) [ none ↦ 0 | some cost ↦ cost ]

  abbrev is_unsupported : ℕ → Bool
  is_unsupported status = status == 404 || status == 400 || status == 501

  unfoldable pub answer_of : HttpResponse → Answer Text
  unfolding parse_cost
  answer_of resp =
      result (record { payload = resp.body; backend = []; cost = parse_cost resp.header })

  unfoldable pub read_promql : HttpResponse → Answer Text
  unfolding answer_of
  read_promql resp =
      if leb 400 resp.status
      then (if is_unsupported resp.status
          then unsupported resp.body
          else failed (codes "openobserve promql error: " ++ resp.body))
      else answer_of resp

  unfoldable pub read_or_fail : Text → HttpResponse → Answer Text
  unfolding answer_of
  read_or_fail prefix resp =
      if leb 400 resp.status then failed (prefix ++ resp.body) else answer_of resp

  module _ (send : HttpRequest → HttpResponse ⊎ Text) where
    -- A request that can be made and sent, and what is read of its answer.
    unfoldable pub call : (HttpResponse → Answer Text) → HttpRequest → Answer Text
    call read req = elim (request_error req.url) [
      | some e ↦ failed e
      | none ↦ elim (send req) [ inr e ↦ failed e | inl resp ↦ read resp ]
    ]

    -- The URL of a query, which stays as it is where it cannot be parsed.
    unfoldable pub promql_url : ℕ → Request → Text → Text
    unfolding range_params has_time_range
    promql_url now req endpoint = elim (parse_url endpoint) [
      | inr e ↦ endpoint
      | inl u ↦ with_params u (
          (codes "query", req.query)
          ∷ (if has_time_range req
              then range_params req
              else (codes "time", seconds_text now) ∷ []))
    ]

    -- queryPromQL of OpenObserve, at a time.
    unfoldable pub query_open_observe : OpenObserveClient → ℕ → Text → Text → Request → Answer Text
    unfolding prom_url promql_url apply_headers call read_promql
    query_open_observe c now org tenant req = elim (prom_url c org (has_time_range req)) [
      | inr e ↦ failed e
      | inl endpoint ↦ call read_promql (record {
        method = codes "GET";
        url = promql_url now req endpoint;
        headers = apply_headers c.api_key tenant;
        body = [];
      })
    ]

    unfoldable pub query_fallback : PromFallbackClient → Text → Request → Answer Text
    unfolding fallback_url range_params apply_headers call read_or_fail has_time_range
    query_fallback c tenant req = elim (parse_url (fallback_url c (has_time_range req))) [
      | inr e ↦ failed e
      | inl u ↦ call (read_or_fail (codes "fallback promql error: ")) (record {
        method = codes "GET";
        url =
            with_params u
              ((codes "query", req.query) ∷ (if has_time_range req then range_params req else []));
        headers = apply_headers c.api_key tenant;
        body = [];
      })
    ]

    unfoldable pub post_json : OpenObserveClient → Text → Text → SearchBody → Answer Text
    unfolding apply_headers set_header call read_or_fail
    post_json c tenant url body = call (read_or_fail (codes "openobserve error: ")) (record {
      method = codes "POST";
      url = url;
      headers =
          set_header canonical (codes "Content-Type") (codes "application/json")
            (apply_headers c.api_key tenant);
      body = encode body;
    })

    abbrev or_table : Text → Text → Text
    or_table default table = if is_empty table then default else table

    -- The fallback of a configuration, if it is switched on.
    unfoldable pub new_fallback : FallbackConfig → Option PromFallbackClient ⊎ Text
    unfolding new_prom_fallback_client
    new_fallback cfg =
        if cfg.enabled
        then elim (new_prom_fallback_client cfg) [ inl fb ↦ inl (some fb) | inr e ↦ inr e ]
        else inl none

    unfoldable pub client_of :
        BackendConfig
        → ℕ
        → OpenObserveClient
        → Option PromFallbackClient
        → Option (Text → Lookup)
        → Client Text
    unfolding query_open_observe query_fallback post_json for_org
    client_of cfg now oo fallback metadata = record {
      default_org = oo.default_org;
      default_log_table = or_table (codes "logs") cfg.open_observe.log_table;
      default_trace_table = or_table (codes "traces") cfg.open_observe.trace_table;
      metadata = metadata;
      open_observe = query_open_observe oo now;
      fallback = elim fallback [ none ↦ none | some fb ↦ some (query_fallback fb) ];
      post_json = post_json oo;
      log_search_url = for_org oo oo.log_search;
      trace_search_url = for_org oo oo.trace_search;
    }

    -- New, with the metadata store or its error as an argument.
    unfoldable pub new : BackendConfig → ℕ → Option (Text → Lookup) ⊎ Text → Client Text ⊎ Text
    unfolding new_open_observe_client new_fallback client_of
    new cfg now metadata = elim (new_open_observe_client cfg.open_observe) [
      | inr e ↦ inr e
      | inl oo ↦ elim (new_fallback cfg.fallback) [
        | inr e ↦ inr e
        | inl fallback ↦ elim metadata [
          | inr e ↦ inr e
          | inl store ↦ inl (client_of cfg now oo fallback store)
        ]
      ]
    ]
