-- ===== src/Workflow/Safety.antt =====
-- What holds of every life of a case (llm-ops-agent/workflow/workflow.go).
use mathlib.Core.List.{Memᴰ}
use x_scope_hub_svc_plus.Prelude.{
  String, ◌≡◌, refl, ◌⊎◌, inl, inr, Bool, true, false, some, List, [], ◌∷◌, arith,
}
use x_scope_hub_svc_plus.Workflow.{
  State, executing, verifying, closed, Event, gate_approved, verify_pass, Context, TransitionIntent,
  intent, table, decide, advance, run,
}

-- The states behind the approval gate, and the one behind verification.
abbrev pub past_gate : State → Bool
past_gate executing = true
past_gate verifying = true
past_gate closed = true
past_gate _ = false

abbrev pub is_closed : State → Bool
is_closed closed = true
is_closed _ = false

module _ {Extras : Type 0} where
  abbrev pub IsApproval : Event × Context Extras → Type 0
  IsApproval s = (s.0 ≡ gate_approved) × (s.1.gate_approved ≡ true) × (s.1.change_window ≡ true)

  abbrev pub IsVerification : Event × Context Extras → Type 0
  IsVerification s = (s.0 ≡ verify_pass) × (s.1.verify_passed ≡ true)

  advance_gate :
      (s : State) (ev : Event) (c : Context Extras)
      → past_gate s ≡ false
      → (past_gate (advance s ev c) ≡ false) ⊎ IsApproval (ev, c)
  unfolding advance
  advance_gate s ev c h = ground arith

  advance_verify :
      (s : State) (ev : Event) (c : Context Extras)
      → is_closed s ≡ false
      → (is_closed (advance s ev c) ≡ false) ⊎ IsVerification (ev, c)
  unfolding advance
  advance_verify s ev c h = ground arith

  -- A case that starts before the gate and ends in EXECUTING, VERIFYING or CLOSED has been through a
  -- gate_approved event whose context had both the approval and an open change window.
  pub run-needs-IsApproval :
      (s : State) (steps : List (Event × Context Extras))
      → past_gate s ≡ false
      → past_gate (run s steps) ≡ true
      → (step : Event × Context Extras) × Memᴰ step steps × IsApproval step
  unfolding run
  run-needs-IsApproval s [] h e = absurd (ground arith)
  run-needs-IsApproval s ((ev, c) ∷ rest) h e = elim (advance_gate s ev c h) [
    | inl before ↦
        let (step, m, a) = run-needs-IsApproval (advance s ev c) rest before e in
        (step, Memᴰ.tail m, a)
    | inr a ↦ ((ev, c), Memᴰ.head refl, a)
  ]

  -- A case that starts in any state but CLOSED and ends in CLOSED has been through a verify_pass
  -- event whose context had the verification passed.
  pub run-needs-IsVerification :
      (s : State) (steps : List (Event × Context Extras))
      → is_closed s ≡ false
      → is_closed (run s steps) ≡ true
      → (step : Event × Context Extras) × Memᴰ step steps × IsVerification step
  unfolding run
  run-needs-IsVerification s [] h e = absurd (ground arith)
  run-needs-IsVerification s ((ev, c) ∷ rest) h e = elim (advance_verify s ev c h) [
    | inl before ↦
        let (step, m, a) = run-needs-IsVerification (advance s ev c) rest before e in
        (step, Memᴰ.tail m, a)
    | inr a ↦ ((ev, c), Memᴰ.head refl, a)
  ]

  advance-closed : (ev : Event) (c : Context Extras) → advance closed ev c ≡ closed
  unfolding advance
  advance-closed ev c = ground arith

  -- CLOSED is final: no list of events leads out of it.
  pub run-closed : (steps : List (Event × Context Extras)) → run closed steps ≡ closed
  unfolding run
  run-closed [] = refl
  run-closed ((ev, c) ∷ rest) = rw (advance-closed ev c) (run-closed rest)

  -- An accepted decision tells one story: the intent, its timeline entry and its single outbox
  -- message name the same old state, new state and event, with the caller's actor, time and case.
  pub decide-intent :
      (s : State) (ev : Event) (c : Context Extras) (case_id : String) (i : TransitionIntent Extras)
      → decide s ev c case_id ≡ intent i
      → (table s ev ≡ some i.to)
        × (i.from ≡ s)
        × (i.event ≡ ev)
        × (i.timeline.event ≡ ev)
        × (i.timeline.at ≡ c.now)
        × (i.timeline.actor ≡ c.actor)
        × (i.messages
            ≡ record {
              topic = "evt.case.transition.v1";
              case_id = case_id;
              from = i.from;
              to = i.to;
              event = i.event;
              actor = i.timeline.actor;
              at = i.timeline.at;
            }
              ∷ [])
  unfolding decide
  decide-intent s ev c case_id i h = ground arith
