-- ===== src/Mcp/Observability/Accepted.antt =====
-- The queries of the plugin's tools, at the gateway that gets them
-- (mcp-server/internal/plugins/observability.go and observe-gateway/internal/server/server.go).
use x_scope_hub_svc_plus.Prelude.{
  ℕ, ◌≡◌, ◌≢◌, refl, ap, sym, ◌∙◌, ◌≤◌, ◌<◌, Bool, true, false, ◌&&◌, Option, inl, none, some, [],
  is_empty, arith,
}
use x_scope_hub_svc_plus.Prelude.Text.{Text, codes, text_eq}
use x_scope_hub_svc_plus.Prelude.Time.{Duration, before, one_hour}
use x_scope_hub_svc_plus.Gateway.Query
use x_scope_hub_svc_plus.Gateway.Query.Template.{resolve_template}
use x_scope_hub_svc_plus.Gateway.Query.Handler.{validate}
use x_scope_hub_svc_plus.Gateway.Config.{default_config}
use x_scope_hub_svc_plus.Agent.Analysis.{Request}
use x_scope_hub_svc_plus.Agent.Analysis.Collect.{
  Source, metric_error_rate, metric_latency_p95, logs, traces, topology, template_of, lang_of,
  template_request,
}
use x_scope_hub_svc_plus.Agent.Analysis.Run.Accepted.{time_set, received, asked, asked-accepted}
use x_scope_hub_svc_plus.Mcp.Observability.{
  or_default, SharedArgs, done, then_do, QueryPayload, Payload, for_gateway, for_agent, Wire,
}
use x_scope_hub_svc_plus.Mcp.Observability.Arguments.{
  time_of, start_before, completed, complete, parse_shared_args,
}
use x_scope_hub_svc_plus.Mcp.Observability.Requests.{query_payload}

-- What the gateway decodes of what the plugin encodes.
unfoldable pub received_payload : QueryPayload → Query.Request
received_payload q = record {
  lang = [];
  query = [];
  template = q.template;
  variables = q.variables;
  start = time_set q.start;
  end = time_set q.end;
  step = [];
  normalize = false;
}

-- The request that the gateway makes of a tool's query for a source, in its default configuration.
unfoldable pub tool_asked : {Float : Type 0} → Float → SharedArgs → Source → Query.Request
unfolding received_payload query_payload
tool_asked ten args s =
    resolve_template (default_config ten).query_templates
      (received_payload (query_payload args (template_of s)))

-- An analysis of the same service at the same times.
abbrev analysis_of : SharedArgs → Request
analysis_of args = record {
  goal = [];
  tenant = args.tenant;
  user = args.user;
  service = args.service;
  incident = args.incident;
  window = args.window;
  start = args.start;
  end = args.end;
  max_items = 0;
  prompt = args.prompt;
}

tool_asked-asked :
    {Float : Type 0} (ten : Float) (args : SharedArgs) (s : Source)
    → tool_asked ten args s ≡ asked ten (analysis_of args) s
unfolding tool_asked asked received template_request
tool_asked-asked ten args s = refl

abbrev is_none : {A : Type 0} → Option A → Bool
is_none none = true
is_none (some a) = false

-- What the gateway makes of a body: whether it is in a language and valid, in its default configuration.
unfoldable pub fits : {Float : Type 0} → Float → Text → Payload → Bool
unfolding received_payload
fits ten lang (for_agent analysis) = true
fits ten lang (for_gateway q) =
    let r = resolve_template (default_config ten).query_templates (received_payload q) in
    text_eq r.lang lang && is_none (validate r)

lang-text_eq : (s : Source) → text_eq (lang_of s) (lang_of s) ≡ true
unfolding text_eq
lang-text_eq metric_error_rate = refl
lang-text_eq metric_latency_p95 = refl
lang-text_eq logs = refl
lang-text_eq traces = refl
lang-text_eq topology = refl

fits-tool_asked :
    {Float : Type 0} (ten : Float) (args : SharedArgs) (s : Source) (lang : Text)
    → fits ten lang (for_gateway (query_payload args (template_of s)))
      ≡ (text_eq (tool_asked ten args s).lang lang && is_none (validate (tool_asked ten args s)))
unfolding fits tool_asked
fits-tool_asked ten args s lang = refl

in_lang :
    (r : Query.Request) (lang : Text)
    → r.lang ≡ lang
    → text_eq lang lang ≡ true
    → validate r ≡ none
    → (text_eq r.lang lang && is_none (validate r)) ≡ true
in_lang r lang same known valid =
    ap (λ v. text_eq r.lang lang && is_none v) valid
    ∙ ap (λ l. text_eq l lang && true) same
    ∙ ap (λ b. b && true) known

pub tool-fits :
    {Float : Type 0} (ten : Float) (args : SharedArgs) (s : Source)
    → args.start ≢ 0
    → args.start ≤ args.end
    → fits ten (lang_of s) (for_gateway (query_payload args (template_of s))) ≡ true
tool-fits ten args s set ordered =
    let (lang, valid) = asked-accepted ten (analysis_of args) s set ordered in
    let at = tool_asked-asked ten args s in
    fits-tool_asked ten args s (lang_of s)
    ∙ in_lang (tool_asked ten args s) (lang_of s) (ap (λ r. r.lang) at ∙ lang) (lang-text_eq s)
        (ap validate at ∙ valid)

module _ (wire : Wire) where
  open wire use {Args, decode, parse_duration}

  -- The length of the window, an hour where it cannot be read.
  abbrev pub length_of : Text → Duration
  length_of window = elim (parse_duration window) [
    | some d ↦ d
    | none ↦ record { is_negative = false; size = one_hour }
  ]

  -- Arguments without times, and with a window that is not negative and shorter than the time since the
  -- zero time.
  pub record IsTimeless (now : ℕ) (raw : SharedArgs) : Type 0 where
    pub no_start : is_empty raw.start_raw ≡ true
    pub no_end : is_empty raw.end_raw ≡ true
    pub forward : (length_of (or_default (codes "1h") raw.window)).is_negative ≡ false
    pub short : (length_of (or_default (codes "1h") raw.window)).size < now

  complete-times :
      (now : ℕ) (raw parsed : SharedArgs)
      → complete wire now raw ≡ done parsed
      → is_empty raw.start_raw ≡ true
      → is_empty raw.end_raw ≡ true
      → (parsed.end ≡ now)
        × (parsed.start ≡ start_before wire now parsed.window)
        × (parsed.window ≡ or_default (codes "1h") raw.window)
  unfolding complete time_of then_do completed
  complete-times now raw parsed h no_start no_end = ground arith

  start_before-length :
      (now : ℕ) (window : Text) → start_before wire now window ≡ before now (length_of window)
  unfolding start_before before
  start_before-length now window = ground arith

  parse-complete :
      (now : ℕ) (args : Args) (raw parsed : SharedArgs)
      → decode args ≡ inl raw
      → parse_shared_args wire now args ≡ done parsed
      → complete wire now raw ≡ done parsed
  unfolding parse_shared_args
  parse-complete now args raw parsed h k = ground arith

  earlier :
      (now : ℕ) (d : Duration)
      → d.is_negative ≡ false
      → d.size < now
      → (before now d ≢ 0) × (before now d ≤ now)
  unfolding before
  earlier now d forward short = ground arith

  -- The times of a tool that is called with a window and without times.
  pub parse_shared_args-times :
      (now : ℕ) (args : Args) (raw parsed : SharedArgs)
      → decode args ≡ inl raw
      → IsTimeless now raw
      → parse_shared_args wire now args ≡ done parsed
      → (parsed.start ≢ 0) × (parsed.start ≤ parsed.end)
  parse_shared_args-times now args raw parsed decoded h parses =
      let (ends, starts, windows) =
        complete-times now raw parsed (parse-complete now args raw parsed decoded parses) h.no_start
          h.no_end in
      let length = ap length_of windows in
      let (set, ordered) =
        earlier now (length_of parsed.window) (ap (λ d. d.is_negative) length ∙ h.forward)
          (rw length h.short) in
      let began = starts ∙ start_before-length now parsed.window in
      ((λ zero_start. set (sym began ∙ zero_start)), ground (arith, began, ends, ordered))
