-- ===== src/Workflow/Graph.antt =====
-- Which states a case can still leave, and how (llm-ops-agent/workflow/workflow.go).
use x_scope_hub_svc_plus.Prelude.{◌≡◌, true, List, [], ◌∷◌, map, arith}
use x_scope_hub_svc_plus.Workflow.{
  State, new, analyzing, planning, wait_gate, executing, verifying, closed, parked, Event,
  start_analysis, analysis_done, plan_ready, gate_approved, exec_done, verify_pass, force_park,
  Context, advance, run,
}

-- The constants of the type, less CLOSED.
abbrev pub IsOpen : State → Type 0
IsOpen closed = ⊥
IsOpen (State.other s) = ⊥
IsOpen _ = Unit

-- The states that work goes on in: the open ones, less PARKED.
abbrev pub IsActive : State → Type 0
IsActive parked = ⊥
IsActive s = IsOpen s

module _ {Extras : Type 0} where
  -- A context that every guard lets through.
  abbrev pub IsClear : Context Extras → Type 0
  IsClear c =
      (c.plan_complete ≡ true)
      × (c.gate_approved ≡ true)
      × (c.change_window ≡ true)
      × (c.verify_passed ≡ true)

  abbrev pub with_context : Context Extras → Event → Event × Context Extras
  with_context c ev = (ev, c)

  -- From every state but CLOSED some list of events closes the case, when the guards are satisfied.
  pub run-reaches_closed :
      (s : State) (c : Context Extras)
      → IsOpen s
      → IsClear c
      → (evs : List Event) × (run s (map (with_context c) evs) ≡ closed)
  unfolding run advance
  run-reaches_closed new c h k = (
    start_analysis ∷ analysis_done ∷ plan_ready ∷ gate_approved ∷ exec_done ∷ verify_pass ∷ [],
    ground arith,
  )
  run-reaches_closed analyzing c h k =
      (analysis_done ∷ plan_ready ∷ gate_approved ∷ exec_done ∷ verify_pass ∷ [], ground arith)
  run-reaches_closed planning c h k =
      (plan_ready ∷ gate_approved ∷ exec_done ∷ verify_pass ∷ [], ground arith)
  run-reaches_closed wait_gate c h k = (gate_approved ∷ exec_done ∷ verify_pass ∷ [], ground arith)
  run-reaches_closed executing c h k = (exec_done ∷ verify_pass ∷ [], ground arith)
  run-reaches_closed verifying c h k = (verify_pass ∷ [], ground arith)
  run-reaches_closed parked c h k =
      (plan_ready ∷ gate_approved ∷ exec_done ∷ verify_pass ∷ [], ground arith)
  run-reaches_closed closed c h k = absurd h
  run-reaches_closed (State.other s) c h k = absurd h

  -- In every active state force_park parks the case, whatever the context; and from PARKED it is
  -- taken up again by start_analysis.
  pub force_park-resumes :
      (s : State) (c d : Context Extras)
      → IsActive s
      → (advance s force_park c ≡ parked)
        × (run s ((force_park, c) ∷ (start_analysis, d) ∷ []) ≡ analyzing)
  unfolding run advance
  force_park-resumes s c d h = ground arith
