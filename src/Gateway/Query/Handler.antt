-- ===== src/Gateway/Query/Handler.antt =====
-- observe-gateway/internal/server/server.go: handleQuery, dispatch and validate.
-- The encoders, the format of times, the parser of durations and the limiter are a record that the
-- section takes, and so are the backends, an interface in the code too. activeRequests, which nothing
-- reads, is left out. The texts of errors that other code writes are arguments.
pub mod Guards
pub mod Isolation
pub mod Tenants
pub mod Log
mod Tests
use x_scope_hub_svc_plus.Prelude.{
  ℕ, ◌/◌, Bool, true, false, not, ◌&&◌, ◌||◌, Option, none, some, List, [], ◌∷◌, ◌++◌, is_empty,
  if◌then◌else◌,
}
use x_scope_hub_svc_plus.Prelude.Text.{Text, codes, to_lower, text_eq}
use x_scope_hub_svc_plus.Gateway.Limiter.{Verdict, allowed, rate_limited, redis_error}
use x_scope_hub_svc_plus.Gateway.Query.{
  Request, Stats, Response, Entry, Cache, has_time_range, starts_late, log, get, set,
}
use x_scope_hub_svc_plus.Gateway.Query.Template.{Templates, resolve_template}
use x_scope_hub_svc_plus.Gateway.Query.Key.{build_cache_key}

pub record Result (Payload : Type 0) : Type 0 where
  pub payload : Payload
  pub backend : Text
  pub cost : ℕ

pub data Answer (Payload : Type 0) : Type 0 where
  result : Result Payload → Answer Payload
  unsupported : Text → Answer Payload
  failed : Text → Answer Payload

-- queryBackend, for a tenant and a request
pub record Backend (Payload : Type 0) : Type 0 where
  pub query_promql : Text → Request → Answer Payload
  pub query_logql : Text → Request → Answer Payload
  pub query_traceql : Text → Request → Answer Payload

pub record Library : Type 1 where
  pub Payload : Type 0
  pub Limits : Type 0
  pub allow : ℕ → Text → Limits → Verdict × Limits
  pub format_time : ℕ → Text
  pub is_duration : Text → Bool
  pub marshal : Response Payload → Option Payload
  pub marshal_failure : Text
  pub limiter_failure : Text
  pub unmarshal : Payload → Option (Text × ℕ)  -- the backend and the cost in the response's stats

pub data Verified : Type 0 where
  rejected : Text → Verified
  verified : Text → Text → Verified

pub record HttpRequest : Type 0 where
  pub decode_error : Option Text
  pub body : Request  -- as far as it was decoded
  pub header : Text → Text

pub record Config : Type 0 where
  pub tenant_header : Text
  pub user_header : Text
  pub templates : Templates
  pub audit : Bool

-- What happens around one request: the clock, how long it took in nanoseconds, and whether the cache still holds
-- and takes an entry.
pub record Moment : Type 0 where
  pub now : ℕ
  pub duration : ℕ
  pub held : Bool
  pub accepts : Bool

pub data Body (Payload : Type 0) : Type 0 where
  error_body : Text → Body Payload
  payload_body : Payload → Body Payload

pub record HttpResponse (Payload : Type 0) : Type 0 where
  pub status : ℕ
  pub body : Body Payload

-- A request that is refused before anything is asked: the status, the answer and, for the audit log,
-- the tenant, the user, the language, the query and the error.
pub record Refusal : Type 0 where
  pub status : ℕ
  pub message : Text
  pub tenant : Text
  pub user : Text
  pub request : Request
  pub logged : Text

pub record Admitted : Type 0 where
  pub request : Request
  pub tenant : Text
  pub user : Text

pub data Admission : Type 0 where
  refused : Refusal → Admission
  admitted : Admitted → Admission

-- validate: the error, if there is one
unfoldable pub validate : Request → Option Text
unfolding text_eq has_time_range starts_late
validate r =
    if text_eq r.lang (codes "promql")
    then none
    else if text_eq r.lang (codes "logql") || text_eq r.lang (codes "traceql")
    then (if not (has_time_range r)
        then some (r.lang ++ codes " requires start and end")
        else if starts_late r
        then some (codes "start must be before end")
        else none)
    else some (codes "unsupported language: " ++ r.lang)

unfoldable pub dispatch : {Payload : Type 0} → Backend Payload → Text → Request → Answer Payload
unfolding text_eq
dispatch b tenant r =
    if text_eq r.lang (codes "promql")
    then b.query_promql tenant r
    else if text_eq r.lang (codes "logql")
    then b.query_logql tenant r
    else if text_eq r.lang (codes "traceql")
    then b.query_traceql tenant r
    else failed (codes "unsupported language: " ++ r.lang)

refuse : ℕ → Text → Text → Text → Request → Text → Admission
refuse status message tenant user r logged = refused (record {
  status = status;
  message = message;
  tenant = tenant;
  user = user;
  request = r;
  logged = logged;
})

-- if header == "" { header = fallback }
abbrev or_header : Text → Text → Text
or_header header fallback = if is_empty header then fallback else header

-- The tenant's name and what validate says.
checked : Text → Text → Request → Admission
unfolding refuse validate
checked tenant user r =
    if is_empty tenant
    then refuse 400 (codes "tenant is required") [] [] r (codes "tenant missing")
    else elim (validate r) [
      | some e ↦ refuse 400 e tenant user r e
      | none ↦ admitted (record { request = r; tenant = tenant; user = user })
    ]

-- The tenant and the user of a request, from its token or from its headers.
identified : Config → Option (HttpRequest → Verified) → HttpRequest → Request → Admission
unfolding checked refuse
identified cfg none http r =
    checked (http.header (or_header cfg.tenant_header (codes "X-Tenant")))
      (http.header (or_header cfg.user_header (codes "X-User"))) r
identified cfg (some verify) http r = elim (verify http) [
  | rejected e ↦ refuse 401 e [] [] r e
  | verified tenant user ↦ checked tenant user r
]

-- The request with its template resolved and its language in lower case.
unfoldable pub prepared : Config → Request → Request
unfolding resolve_template to_lower
prepared cfg body =
    let resolved = resolve_template cfg.templates body in
    record resolved { lang = to_lower resolved.lang }

-- What handleQuery tests before it asks the limiter.
unfoldable pub admit :
    (Text → Bool) → Config → Option (HttpRequest → Verified) → HttpRequest → Admission
unfolding identified refuse prepared
admit is_duration cfg auth http = elim http.decode_error [
  | some e ↦ refuse 400 (codes "invalid request: " ++ e) [] [] http.body e
  | none ↦
      let r = prepared cfg http.body in
      if is_empty r.query
      then refuse 400 (codes "query is required") [] [] r (codes "query is required")
      else if not (is_empty r.step) && not (is_duration r.step)
      then refuse 400 (codes "invalid step duration") [] [] r (codes "invalid step")
      else identified cfg auth http r
]

-- The entry for a request that the guards refuse.
abbrev refusal_entry : Moment → Refusal → Entry
refusal_entry m d = record {
  tenant = d.tenant;
  user = d.user;
  lang = d.request.lang;
  query = d.request.query;
  cost = 0;
  duration = m.duration;
  cached = false;
  backend = [];
  error = d.logged;
}

module _ (lib : Library) where
  open lib use {
    Payload, Limits, allow, format_time, is_duration, marshal, unmarshal, marshal_failure,
    limiter_failure,
  }

  pub record Server : Type 0 where
    pub cfg : Config
    pub auth : Option (HttpRequest → Verified)
    pub backend : Backend Payload
    pub cache : Cache Payload
    pub limiter : Option Limits
    pub entries : List Entry

  -- writeError, and the entry of the audit log
  deny : ℕ → Text → Entry → Server → HttpResponse Payload × Server
  unfolding log
  deny status message entry s = (
    record { status = status; body = error_body message },
    record s { entries = log s.cfg.audit entry s.entries },
  )

  -- An entry for an admitted request.
  entry_of : ℕ → Admitted → ℕ → Bool → Text → Text → Entry
  entry_of duration a cost cached backend error = record {
    tenant = a.tenant;
    user = a.user;
    lang = a.request.lang;
    query = a.request.query;
    cost = cost;
    duration = duration;
    cached = cached;
    backend = backend;
    error = error;
  }

  -- A payload from the cache.
  answer_cached : ℕ → Admitted → Payload → Server → HttpResponse Payload × Server
  unfolding log entry_of
  answer_cached duration a data_in s =
      let entry : Entry = elim (unmarshal data_in) [
        | some (backend, cost) ↦ entry_of duration a cost true backend []
        | none ↦ entry_of duration a 0 true (codes "cache") []
      ] in
      (
        record { status = 200; body = payload_body data_in },
        record s { entries = log s.cfg.audit entry s.entries },
      )

  unfoldable pub response_to : ℕ → Admitted → Result Payload → Response Payload
  response_to duration a res = record {
    lang = a.request.lang;
    tenant = a.tenant;
    result = res.payload;
    stats = record {
      backend = res.backend;
      cached = false;
      duration_ms = duration / 1000000;
      cost = res.cost;
    };
  }

  -- A result of a backend, which the cache is given too.
  answer_result : Moment → Text → Admitted → Result Payload → Server → HttpResponse Payload × Server
  unfolding deny log set response_to entry_of
  answer_result m key a res s = elim (marshal (response_to m.duration a res)) [
    | none ↦
        deny 500 (codes "marshal response failed")
          (entry_of m.duration a 0 false res.backend marshal_failure) s
    | some payload ↦ (
      record { status = 200; body = payload_body payload },
      record s {
        cache = set m.accepts key payload s.cache;
        entries = log s.cfg.audit (entry_of m.duration a res.cost false res.backend []) s.entries;
      },
    )
  ]

  ask : Moment → Text → Admitted → Server → HttpResponse Payload × Server
  unfolding answer_result dispatch deny entry_of
  ask m key a s = elim (dispatch s.backend a.tenant a.request) [
    | result res ↦ answer_result m key a res s
    | unsupported e ↦ deny 400 e (entry_of m.duration a 0 false [] e) s
    | failed e ↦ deny 502 e (entry_of m.duration a 0 false [] e) s
  ]

  -- From the cache or from a backend.
  unfoldable pub serve : Moment → Admitted → Server → HttpResponse Payload × Server
  unfolding answer_cached ask get build_cache_key
  serve m a s =
      let key = build_cache_key format_time a.request a.tenant in
      elim (get m.held key s.cache) [
        | some data_in ↦ answer_cached m.duration a data_in s
        | none ↦ ask m key a s
      ]

  limited : Moment → Admitted → Option Limits → Server → HttpResponse Payload × Server
  unfolding serve deny entry_of
  limited m a none s = serve m a s
  limited m a (some l) s =
      let (verdict, l') = allow m.now a.tenant l in
      let s' = record s { limiter = some l' } in
      elim verdict [
        | allowed ↦ serve m a s'
        | rate_limited ↦
            deny 429 (codes "rate limit exceeded")
              (entry_of m.duration a 0 false [] (codes "rate limit exceeded")) s'
        | redis_error ↦
            deny 500 limiter_failure (entry_of m.duration a 0 false [] limiter_failure) s'
      ]

  unfoldable pub handle_query : Moment → HttpRequest → Server → HttpResponse Payload × Server
  unfolding admit limited deny
  handle_query m http s = elim (admit is_duration s.cfg s.auth http) [
    | refused d ↦ deny d.status d.message (refusal_entry m d) s
    | admitted a ↦ limited m a s.limiter s
  ]
