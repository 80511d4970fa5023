-- ===== src/Agent/Analysis/Normalize.antt =====
-- llm-ops-agent/internal/analysis/service.go: the defaults of NewService and normalizeRequest.
-- The parser and the printer of durations and Duration.Round are a record that the section takes.
pub mod Idempotent
use x_scope_hub_svc_plus.Prelude.{
  ℕ, ◌≡◌, ◌≢◌, refl, Bool, true, false, not, Option, none, some, is_empty, ltb, ◌==◌, if◌then◌else◌,
  arith, Bool-cases, ◌⊎◌, inl, inr, ◌&&◌, ◌||◌, Option-cases,
}
use x_scope_hub_svc_plus.Prelude.Text.{Text, codes, trim_space}
use x_scope_hub_svc_plus.Prelude.Time.{Duration, is_zero, is_positive, before, since, one_hour}
use x_scope_hub_svc_plus.Agent.Analysis.{Request, Defaults, analyze_incident}

pub record Clock : Type 0 where
  pub parse_duration : Text → Option Duration
  pub duration_text : Duration → Text
  pub round_to_minute : Duration → Duration

-- What NewService makes of the options; a negative number of items is 0.
unfoldable pub new_defaults : Text → Text → Duration → ℕ → Defaults
unfolding is_positive
new_defaults tenant user window max_items = record {
  default_tenant = tenant;
  default_user = user;
  default_window =
      if is_positive window then window else record { is_negative = false; size = one_hour };
  max_items = if ltb 0 max_items then max_items else 50;
}

-- strings.TrimSpace(s) == ""
abbrev pub is_blank : Text → Bool
is_blank s = is_empty (trim_space s)

module _ (clock : Clock) (defaults : Defaults) where
  -- The start and the window of a request without a start.
  unfoldable pub start_and_window : Text → ℕ → ℕ × Text
  unfolding before
  start_and_window window end =
      let by_default : ℕ × Text =
        (before end defaults.default_window, clock.duration_text defaults.default_window) in
      if is_blank window then by_default else elim (clock.parse_duration (trim_space window)) [
        | some d ↦ (before end d, window)
        | none ↦ by_default
      ]

  -- The window, or the time from the start to the end.
  unfoldable pub window_or_length : Text → ℕ → ℕ → Text
  unfolding since
  window_or_length window start end =
      if is_blank window
      then clock.duration_text (clock.round_to_minute (since end start))
      else window

  unfoldable pub normalize_request : ℕ → Request → Request
  unfolding start_and_window window_or_length
  normalize_request now req =
      let end = if is_zero req.end then now else req.end in
      let (start, window) =
        if is_zero req.start then start_and_window req.window end else (req.start, req.window) in
      record {
        goal = if is_empty req.goal then analyze_incident else req.goal;
        tenant = if is_blank req.tenant then defaults.default_tenant else req.tenant;
        user = if is_blank req.user then defaults.default_user else req.user;
        service = req.service;
        incident = req.incident;
        window = window_or_length window start end;
        start = start;
        end = end;
        max_items = if ltb 0 req.max_items then req.max_items else defaults.max_items;
        prompt = req.prompt;
      }
