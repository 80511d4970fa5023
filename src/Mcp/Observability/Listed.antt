-- ===== src/Mcp/Observability/Listed.antt =====
-- The tools that the plugin lists are those that it has
-- (mcp-server/internal/plugins/observability.go, Tools and ExecuteTool).
use x_scope_hub_svc_plus.Prelude.{
  ℕ, ◌≡◌, ◌≢◌, ◌↔◌, refl, Bool, true, false, inl, inr, List, [], ◌∷◌, String, str_eq, is_empty,
  if◌then◌else◌, arith, Bool-cases,
}
use x_scope_hub_svc_plus.Prelude.Text.{Text, trim_space}
use x_scope_hub_svc_plus.Mcp.Registry.{has_tool}
use x_scope_hub_svc_plus.Mcp.Observability.{
  ObservabilityPlugin, SharedArgs, unknown_tool, invalid_start, invalid_end, Outcome, done, failed,
  then_do, Payload, HttpPost, Sent, Wire,
}
use x_scope_hub_svc_plus.Mcp.Observability.Arguments.{time_of, complete, parse_shared_args}
use x_scope_hub_svc_plus.Mcp.Observability.Requests.{
  read_reply, post_json, with_defaults, query_observe_gateway,
}
use x_scope_hub_svc_plus.Mcp.Observability.Tools.{
  tools, query_all, query_metrics, query_template_tool, run_analysis, execute_tool,
}

-- The outcome does not say that the tool is unknown.
abbrev pub IsKnown : {A : Type 0} → Outcome A → Type 0
IsKnown o = (name : String) → o ≢ failed (unknown_tool name)

then_do-IsKnown :
    {A B : Type 0} (o : Outcome A) (next : A → Outcome B)
    → IsKnown o
    → ((a : A) → IsKnown (next a))
    → IsKnown (then_do o next)
unfolding then_do
then_do-IsKnown (done a) next h k name = k a name
then_do-IsKnown (failed e) next h k name = λ bad. h name (ground arith)

done-IsKnown : {A : Type 0} (a : A) → IsKnown (done a)
done-IsKnown a name bad = ground arith

module _ (wire : Wire) where
  open wire use {Args, Body, decode, parse_time, marshal, url_error}

  time_of-start : (raw : Text) → IsKnown (time_of wire invalid_start raw)
  unfolding time_of
  time_of-start raw name bad = ground arith

  time_of-end : (raw : Text) → IsKnown (time_of wire invalid_end raw)
  unfolding time_of
  time_of-end raw name bad = ground arith

  times-IsKnown : (now : ℕ) (args : SharedArgs) → IsKnown (complete wire now args)
  unfolding complete
  times-IsKnown now args name = elim (Bool-cases (is_empty (trim_space args.service))) [
    | inl unnamed ↦ rw unnamed (λ bad. ground arith)
    | inr named ↦ rw named (
        then_do-IsKnown _ _ (time_of-start args.start_raw)
          (λ start. then_do-IsKnown _ _ (time_of-end args.end_raw) (λ end. done-IsKnown _)) name)
  ]

  parse_shared_args-IsKnown : (now : ℕ) (args : Args) → IsKnown (parse_shared_args wire now args)
  unfolding parse_shared_args
  parse_shared_args-IsKnown now args name bad = ground (arith, times-IsKnown now, name)

  module _ (send : HttpPost → Sent Body) (p : ObservabilityPlugin) where
    read_reply-IsKnown :
        (url : Text) (reply : Sent Body) → IsKnown (read_reply wire send p url reply)
    unfolding read_reply
    read_reply-IsKnown url reply name bad = ground arith

    post_json-IsKnown :
        (url : Text) (payload : Payload) (tenant user : Text)
        → IsKnown (post_json wire send p url payload tenant user)
    unfolding post_json
    post_json-IsKnown url payload tenant user name bad = ground (arith, read_reply-IsKnown url)

    query_observe_gateway-IsKnown :
        (args : SharedArgs) (template : Text)
        → IsKnown (query_observe_gateway wire send p args template)
    unfolding query_observe_gateway
    query_observe_gateway-IsKnown args template name = elim (Bool-cases (is_empty p.gateway_url)) [
      | inl unset ↦ rw unset (λ bad. ground arith)
      | inr set ↦ rw set (post_json-IsKnown _ _ _ _ name)
    ]

    query_all-IsKnown :
        (args : SharedArgs) (queries : List (Text × Text))
        → IsKnown (query_all wire send p args queries)
    unfolding query_all
    query_all-IsKnown args [] = done-IsKnown []
    query_all-IsKnown args ((key, template) ∷ queries) =
        then_do-IsKnown _ _ (query_observe_gateway-IsKnown args template)
          (λ resp. then_do-IsKnown _ _ (query_all-IsKnown args queries) (λ results. done-IsKnown _))

    query_metrics-IsKnown : (now : ℕ) (args : Args) → IsKnown (query_metrics wire send p now args)
    unfolding query_metrics
    query_metrics-IsKnown now args =
        then_do-IsKnown _ _ (parse_shared_args-IsKnown now args) (λ raw.
          then_do-IsKnown _ _ (query_all-IsKnown (with_defaults wire send p raw) _)
            (λ results. done-IsKnown _))

    query_template_tool-IsKnown :
        (tool : String) (template : Text) (now : ℕ) (args : Args)
        → IsKnown (query_template_tool wire send p tool template now args)
    unfolding query_template_tool
    query_template_tool-IsKnown tool template now args =
        then_do-IsKnown _ _ (parse_shared_args-IsKnown now args) (λ raw.
          then_do-IsKnown _ _
            (query_observe_gateway-IsKnown (with_defaults wire send p raw) template)
            (λ resp. done-IsKnown _))

    run_analysis-IsKnown :
        (goal : String) (now : ℕ) (args : Args) → IsKnown (run_analysis wire send p goal now args)
    unfolding run_analysis
    run_analysis-IsKnown goal now args name = elim (Bool-cases (is_empty p.agent_url)) [
      | inl unset ↦ rw unset (λ bad. ground arith)
      | inr set ↦ rw set (
          then_do-IsKnown _ _ (parse_shared_args-IsKnown now args)
            (λ raw. then_do-IsKnown _ _ (post_json-IsKnown _ _ _ _) (λ response. done-IsKnown _))
            name)
    ]

    if-IsKnown :
        {A : Type 0} (b : Bool) (x y : Outcome A)
        → IsKnown x
        → (b ≡ false → IsKnown y)
        → IsKnown (if b then x else y)
    if-IsKnown true x y hx hy = hx
    if-IsKnown false x y hx hy = hy refl

    execute_tool-IsKnown :
        (now : ℕ) (name : String) (args : Args)
        → has_tool name tools ≡ true
        → IsKnown (execute_tool wire send p now name args)
    unfolding execute_tool has_tool
    execute_tool-IsKnown now name args listed =
        if-IsKnown (str_eq "query_metrics" name) _ _ (query_metrics-IsKnown now args) (λ a.
          if-IsKnown (str_eq "query_logs" name) _ _ (query_template_tool-IsKnown name _ now args)
            (λ b.
              if-IsKnown (str_eq "query_traces" name) _ _
                (query_template_tool-IsKnown name _ now args)
                (λ c.
                  if-IsKnown (str_eq "get_topology" name) _ _
                    (run_analysis-IsKnown "get_topology" now args)
                    (λ d.
                      if-IsKnown (str_eq "analyze_incident" name) _ _
                        (run_analysis-IsKnown "analyze_incident" now args)
                        (λ e.
                          if-IsKnown (str_eq "summarize_service_health" name) _ _
                            (run_analysis-IsKnown "summarize_service_health" now args)
                            (λ f.
                              if-IsKnown (str_eq "propose_remediation" name) _ _
                                (run_analysis-IsKnown "propose_remediation" now args)
                                (λ g. absurd (ground arith))))))))

    execute_tool-unlisted :
        (now : ℕ) (name : String) (args : Args)
        → has_tool name tools ≡ false
        → execute_tool wire send p now name args ≡ failed (unknown_tool name)
    unfolding execute_tool has_tool
    execute_tool-unlisted now name args unlisted = ground arith

    -- The plugin has just the tools that it lists: it says of a tool that it is unknown where it does
    -- not list it, and only there, whatever the arguments and the answers of the gateway and the agent.
    pub execute_tool-listed :
        (now : ℕ) (name : String) (args : Args)
        → (has_tool name tools ≡ false)
          ↔ (execute_tool wire send p now name args ≡ failed (unknown_tool name))
    execute_tool-listed now name args = (
      execute_tool-unlisted now name args,
      λ unknown. elim (Bool-cases (has_tool name tools)) [
        | inl listed ↦ absurd (execute_tool-IsKnown now name args listed name unknown)
        | inr unlisted ↦ unlisted
      ],
    )
