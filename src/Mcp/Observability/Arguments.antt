-- ===== src/Mcp/Observability/Arguments.antt =====
-- mcp-server/internal/plugins/observability.go: parseSharedArgs and headerValue.
use x_scope_hub_svc_plus.Prelude.{
  ℕ, inl, inr, Option, none, some, List, [], ◌∷◌, ◌-◌, is_empty, if◌then◌else◌,
}
use x_scope_hub_svc_plus.Prelude.Text.{Text, codes, text_eq, trim_space}
use x_scope_hub_svc_plus.Prelude.Time.{is_zero, before, one_hour}
use x_scope_hub_svc_plus.Mcp.Observability.{
  or_default, SharedArgs, ToolError, service_required, decode_args, invalid_start, invalid_end,
  Outcome, done, failed, then_do, Wire,
}

-- The first of the keys whose value is a string that is not blank.
unfoldable pub header_of : Text → List (Text × Option Text) → Text
unfolding text_eq
header_of key [] = []
header_of key ((k, none) ∷ headers) = if text_eq k key then [] else header_of key headers
header_of key ((k, some v) ∷ headers) = if text_eq k key then v else header_of key headers

unfoldable pub header_value : List (Text × Option Text) → List Text → Text
unfolding header_of
header_value headers [] = []
header_value headers (key ∷ keys) =
    if is_empty (trim_space (header_of key headers))
    then header_value headers keys
    else header_of key headers

abbrev tenant_names : List Text
tenant_names = codes "X-Tenant" ∷ codes "x-tenant" ∷ codes "X-Scope-Tenant" ∷ []

abbrev user_names : List Text
user_names = codes "X-User" ∷ codes "x-user" ∷ codes "X-Scope-User" ∷ []

module _ (wire : Wire) where
  open wire use {
    Args, Body, decode, parse_time, parse_duration, marshal, url_error, canonical, error_member,
  }

  -- The time in a text, or none where the text is empty.
  unfoldable pub time_of : (Text → ToolError) → Text → Outcome ℕ
  time_of invalid raw =
      if is_empty raw
      then done 0
      else elim (parse_time raw) [ inl t ↦ done t | inr e ↦ failed (invalid e) ]

  unfoldable pub start_before : ℕ → Text → ℕ
  unfolding before
  start_before end window = elim (parse_duration window) [
    | some d ↦ before end d
    | none ↦ end - one_hour
  ]

  -- The arguments with their defaults and their times.
  unfoldable pub completed : ℕ → SharedArgs → ℕ → ℕ → SharedArgs
  unfolding header_value start_before
  completed now args start_given end_given =
      let window : Text = or_default (codes "1h") args.window in
      let end = if is_zero end_given then now else end_given in
      record args {
        window = window;
        tenant =
            if is_empty args.tenant then header_value args.headers tenant_names else args.tenant;
        user = if is_empty args.user then header_value args.headers user_names else args.user;
        start = if is_zero start_given then start_before end window else start_given;
        end = end;
      }

  unfoldable pub complete : ℕ → SharedArgs → Outcome SharedArgs
  unfolding then_do time_of completed
  complete now args =
      if is_empty (trim_space args.service)
      then failed service_required
      else then_do (time_of invalid_start args.start_raw) (λ start.
        then_do (time_of invalid_end args.end_raw) (λ end. done (completed now args start end)))

  unfoldable pub parse_shared_args : ℕ → Args → Outcome SharedArgs
  unfolding complete
  parse_shared_args now args = elim (decode args) [
    | inr e ↦ failed (decode_args e)
    | inl raw ↦ complete now raw
  ]
