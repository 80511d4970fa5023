-- ===== src/Gateway/Query/Handler/Tests.antt =====
-- A gateway with one backend, and the theorems at it.
use mathlib.Core.Path.{subst}
use x_scope_hub_svc_plus.Prelude.{
  ℕ, ◌≡◌, refl, sym, ◌⊎◌, Bool, true, false, none, some, [], All, arith, if◌then◌else◌,
}
use x_scope_hub_svc_plus.Prelude.Text.{
  Text, codes, text_eq, to_lower, to_lower_byte, join, trim, trim_left, trim_right, trim_space,
  is_space,
}
use x_scope_hub_svc_plus.Gateway.Limiter.{allowed}
use x_scope_hub_svc_plus.Gateway.Query.{Request, find, get, set, log, has_time_range}
use x_scope_hub_svc_plus.Gateway.Query.Template.{resolve_template}
use x_scope_hub_svc_plus.Gateway.Query.Key.{time_part, extras, build_cache_key}
use x_scope_hub_svc_plus.Gateway.Query.Owner.{HasNoBar, IsName, build_cache_key-tenant}
use x_scope_hub_svc_plus.Gateway.Query.Handler.{
  result, Backend, Library, HttpRequest, Moment, payload_body, Admitted, admitted, admit, prepared,
  validate, dispatch, Server, serve, response_to, handle_query,
}
use x_scope_hub_svc_plus.Gateway.Query.Handler.Isolation.{IsError, IsAnswered, handle_query_cases}
use x_scope_hub_svc_plus.Gateway.Query.Handler.Tenants.{
  text_eq-true, Marking, IsOwn, IsFor, handle_query-IsFor,
}
use x_scope_hub_svc_plus.Gateway.Query.Handler.Log.{IsLogged, handle_query-IsLogged}

-- Payloads are texts, and a response is written as its tenant and its result.
abbrev lib : Library
lib = record {
  Payload = Text;
  Limits = ℕ;
  allow = λ now tenant left. (allowed, left);
  format_time = λ t. codes "T";
  is_duration = λ s. text_eq s (codes "5m");
  marshal = λ r. some r.tenant;
  unmarshal = λ p. none;
  marshal_failure = codes "marshal";
  limiter_failure = codes "redis";
}

abbrev is_extra : Text → Bool
is_extra s =
    if text_eq s (codes "T")
    then true
    else if text_eq s (codes "5m")
    then true
    else text_eq s (codes "normalize=true")

abbrev five_minutes : Text
five_minutes = codes "5m"

marking : Marking lib
unfolding text_eq
marking = record {
  is_extra = is_extra;
  times = λ t. (refl, omega arith);
  durations = λ s h.
      subst (λ (u : Text). (is_extra u ≡ true) × HasNoBar u) (sym (text_eq-true s five_minutes h))
        (refl, omega arith);
  flag = refl;
}

abbrev backend : Backend Text
backend = record {
  query_promql =
      λ tenant r. result (record { payload = codes "up"; backend = codes "prom"; cost = 1 });
  query_logql =
      λ tenant r. result (record { payload = codes "[]"; backend = codes "logs"; cost = 2 });
  query_traceql =
      λ tenant r. result (record { payload = codes "[]"; backend = codes "traces"; cost = 3 });
}

abbrev server : Server lib
server = record {
  cfg = record { tenant_header = []; user_header = []; templates = []; audit = true };
  auth = none;
  backend = backend;
  cache = record { enabled = true; store = [] };
  limiter = some 5;
  entries = [];
}

abbrev request : Request
request = record {
  lang = codes "LogQL";
  query = codes "{} |= \"x\"";
  template = [];
  variables = [];
  start = some 1;
  end = some 2;
  step = codes "5m";
  normalize = false;
}

abbrev asked : HttpRequest
asked = record { decode_error = none; body = request; header = λ h. codes "acme" }

abbrev moment : Moment
moment = record { now = 1; duration = 7; held = true; accepts = true }

abbrev acme : Admitted
acme = record {
  request = record request { lang = codes "logql" };
  tenant = codes "acme";
  user = codes "acme";
}

admits : admit lib.is_duration server.cfg server.auth asked ≡ admitted acme
unfolding admit prepared resolve_template to_lower to_lower_byte trim_space trim trim_left
    trim_right is_space text_eq validate has_time_range
admits = refl

answers : (handle_query lib moment asked server).0.body ≡ payload_body (codes "acme")
unfolding handle_query serve get set find build_cache_key extras time_part join dispatch response_to
    admit prepared resolve_template to_lower to_lower_byte trim_space trim trim_left trim_right
    is_space text_eq validate has_time_range log
answers = refl

admitted-IsName :
    (a : Admitted)
    → admit lib.is_duration server.cfg server.auth asked ≡ admitted a
    → IsName lib.format_time is_extra a.tenant
unfolding text_eq
admitted-IsName a h =
    let same : codes "acme" ≡ a.tenant = cc (sym admits, h) in
    subst (IsName lib.format_time is_extra) same
      (record { plain = omega arith; is_no_extra = refl })

handle_query-IsFor_example :
    All (IsOwn lib marking) (handle_query lib moment asked server).1.cache.store
    × ((p : Text)
        → (handle_query lib moment asked server).0.body ≡ payload_body p
        → (a : Admitted) × (admit lib.is_duration server.cfg server.auth asked ≡ admitted a)
          × IsFor lib marking a.tenant p)
unfolding marking
handle_query-IsFor_example = handle_query-IsFor lib marking moment asked server tt admitted-IsName

handle_query_cases_example :
    IsError lib (handle_query lib moment asked server) server
    ⊎ ((p : Text) × IsAnswered lib moment asked server (handle_query lib moment asked server) p)
handle_query_cases_example = handle_query_cases lib moment asked server

handle_query-IsLogged_example :
    (tenant : Text) × (((a : Admitted)
        → admit lib.is_duration server.cfg server.auth asked ≡ admitted a
        → tenant ≡ a.tenant)
      × IsLogged lib moment tenant true [] (handle_query lib moment asked server))
handle_query-IsLogged_example = handle_query-IsLogged lib moment asked server

build_cache_key-tenant_example : codes "acme" ≡ codes "acme"
unfolding text_eq extras time_part
build_cache_key-tenant_example =
    build_cache_key-tenant lib.format_time is_extra request
      (record request { lang = codes "logql" }) (codes "acme") (codes "acme")
      (record { marked = (refl, (refl, (refl, tt))); plain = omega arith })
      (record { marked = (refl, (refl, (refl, tt))); plain = omega arith })
      (record { plain = omega arith; is_no_extra = refl })
      (record { plain = omega arith; is_no_extra = refl })
      (unfold build_cache_key join to_lower to_lower_byte in refl)

-- Nor is it in a name: a query of the tenant `y` and one of the tenant `x|y` have one key.
shared_by_tenants :
    build_cache_key lib.format_time (record request { template = codes "t|x" }) (codes "y")
    ≡ build_cache_key lib.format_time (record request { template = codes "t" }) (codes "x|y")
unfolding build_cache_key extras join to_lower to_lower_byte
shared_by_tenants = refl

-- The bar in a text is not escaped: two queries of one tenant with one key.
shared_key :
    build_cache_key lib.format_time
      (record request { query = codes "a|b"; template = codes "c" })
      (codes "acme")
    ≡ build_cache_key lib.format_time
        (record request { query = codes "a"; template = codes "b|c" })
        (codes "acme")
unfolding build_cache_key join to_lower to_lower_byte extras time_part
shared_key = refl
