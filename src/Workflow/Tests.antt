-- ===== src/Workflow/Tests.antt =====
-- A life of a case from NEW to CLOSED, and the theorems at it.
use mathlib.Core.List.{Memᴰ}
use x_scope_hub_svc_plus.Prelude.{◌≡◌, refl, true, false, List, [], ◌∷◌, map}
use x_scope_hub_svc_plus.Workflow.{
  new, planning, wait_gate, closed, parked, Event, start_analysis, analysis_done, plan_ready,
  gate_approved, exec_done, verify_pass, guard, Context, TransitionIntent, intent, refused, decide,
  advance, run,
}
use x_scope_hub_svc_plus.Workflow.Safety.{
  IsApproval, IsVerification, run-needs-IsApproval, run-needs-IsVerification,
}
use x_scope_hub_svc_plus.Workflow.Graph.{with_context, run-reaches_closed}

abbrev clear : Context (Unit {0})
clear = record {
  now = 7;
  plan_complete = true;
  gate_approved = true;
  change_window = true;
  verify_passed = true;
  reason = "rollback";
  actor = "agent";
  idem_key = "";
  extras = tt;
}

-- The gate stays shut outside the change window.
abbrev outside_window : Context (Unit {0})
outside_window = record clear { change_window = false }

gate_needs_window : decide wait_gate gate_approved outside_window "c1" ≡ refused guard
unfolding decide
gate_needs_window = refl

abbrev life : List (Event × Context (Unit {0}))
life =
    map (with_context clear)
      (start_analysis ∷ analysis_done ∷ plan_ready ∷ gate_approved ∷ exec_done ∷ verify_pass ∷ [])

life_closes : run new life ≡ closed
unfolding run advance
life_closes = refl

run-needs-IsApproval_example :
    (step : Event × Context (Unit {0})) × Memᴰ step life × IsApproval step
unfolding run advance
run-needs-IsApproval_example = run-needs-IsApproval new life refl refl

run-needs-IsVerification_example :
    (step : Event × Context (Unit {0})) × Memᴰ step life × IsVerification step
unfolding run advance
run-needs-IsVerification_example = run-needs-IsVerification new life refl refl

run-reaches_closed_example :
    (evs : List Event) × (run parked (map (with_context clear) evs) ≡ closed)
run-reaches_closed_example = run-reaches_closed parked clear tt (refl, refl, refl, refl)

abbrev planned : TransitionIntent (Unit {0})
planned = record {
  from = planning;
  to = wait_gate;
  event = plan_ready;
  timeline = record {
    at = 7;
    actor = "agent";
    event = plan_ready;
    reason = "rollback";
    extras = tt;
  };
  messages =
      record {
        topic = "evt.case.transition.v1";
        case_id = "c1";
        from = planning;
        to = wait_gate;
        event = plan_ready;
        actor = "agent";
        at = 7;
      }
      ∷ [];
}

plan_is_ready : decide planning plan_ready clear "c1" ≡ intent planned
unfolding decide
plan_is_ready = refl
