-- ===== src/Workflow.antt =====
-- llm-ops-agent/workflow/workflow.go: the life of an operations case.
-- A Go map of maps is a function by clauses that answers `none` for a missing key. `State` and
-- `Event` are Go strings: `other` stands for every string that is none of the constants.
-- `Extras` (map[string]any) is opaque to the code and is a type parameter; time is a number.
pub mod Graph
pub mod Safety
mod Tests
use x_scope_hub_svc_plus.Prelude.{
  ℕ, String, Bool, true, false, not, ◌||◌, Option, none, some, List, [], ◌∷◌, if◌then◌else◌,
}

pub data State : Type 0 where
  new analyzing planning wait_gate executing verifying closed parked : State
  other : String → State

pub data Event : Type 0 where
  start_analysis analysis_done analysis_failed plan_ready plan_failed gate_approved : Event
  gate_rejected exec_done exec_failed verify_pass verify_failed force_park : Event
  other : String → Event

pub data Error : Type 0 where
  illegal guard : Error

-- `table[from][ev]`
unfoldable pub table : State → Event → Option State
table new start_analysis = some analyzing
table new force_park = some parked
table analyzing analysis_done = some planning
table analyzing analysis_failed = some parked
table analyzing force_park = some parked
table planning plan_ready = some wait_gate
table planning plan_failed = some parked
table planning force_park = some parked
table wait_gate gate_approved = some executing
table wait_gate gate_rejected = some parked
table wait_gate force_park = some parked
table executing exec_done = some verifying
table executing exec_failed = some parked
table executing force_park = some parked
table verifying verify_pass = some closed
table verifying verify_failed = some parked
table verifying force_park = some parked
table parked start_analysis = some analyzing
table parked plan_ready = some wait_gate
table _ _ = none

pub record Context (Extras : Type 0) : Type 0 where
  pub now : ℕ
  pub plan_complete : Bool
  pub gate_approved : Bool
  pub change_window : Bool
  pub verify_passed : Bool
  pub reason : String
  pub actor : String
  pub idem_key : String
  pub extras : Extras

pub record TimelineEntry (Extras : Type 0) : Type 0 where
  pub at : ℕ
  pub actor : String
  pub event : Event
  pub reason : String
  pub extras : Extras

-- The one payload that the code builds, with its six keys.
pub record OutboxMsg : Type 0 where
  pub topic : String
  pub case_id : String
  pub from : State
  pub to : State
  pub event : Event
  pub actor : String
  pub at : ℕ

pub record TransitionIntent (Extras : Type 0) : Type 0 where
  pub from : State
  pub to : State
  pub event : Event
  pub timeline : TimelineEntry Extras
  pub messages : List OutboxMsg

pub data Decision (Extras : Type 0) : Type 0 where
  intent : TransitionIntent Extras → Decision Extras
  refused : Error → Decision Extras

module _ {Extras : Type 0} where
  -- `guards[from][ev]`, with the test that the found function makes; no entry is a guard that holds.
  unfoldable pub guard_passes : State → Event → Context Extras → Bool
  guard_passes planning plan_ready c = c.plan_complete
  guard_passes wait_gate gate_approved c =
      if not c.gate_approved || not c.change_window then false else true
  guard_passes verifying verify_pass c = c.verify_passed
  guard_passes _ _ c = true

  intent_to : State → State → Event → Context Extras → String → TransitionIntent Extras
  intent_to from next ev ctx case_id = record {
    from = from;
    to = next;
    event = ev;
    timeline = record {
      at = ctx.now;
      actor = ctx.actor;
      event = ev;
      reason = ctx.reason;
      extras = ctx.extras;
    };
    messages =
        record {
          topic = "evt.case.transition.v1";
          case_id = case_id;
          from = from;
          to = next;
          event = ev;
          actor = ctx.actor;
          at = ctx.now;
        }
        ∷ [];
  }

  unfoldable pub decide : State → Event → Context Extras → String → Decision Extras
  unfolding intent_to table guard_passes
  decide from ev ctx case_id = elim (table from ev) [
    | none ↦ refused illegal
    | some next ↦
        if guard_passes from ev ctx
        then intent (intent_to from next ev ctx case_id)
        else refused guard
  ]

  -- A case that goes through a list of events, each with its context: what is refused leaves the
  -- state as it was, since the caller rolls its transaction back.
  unfoldable pub advance : State → Event → Context Extras → State
  unfolding decide
  advance from ev ctx = elim (decide from ev ctx "") [ intent i ↦ i.to | refused e ↦ from ]

  unfoldable pub run : State → List (Event × Context Extras) → State
  run s [] = s
  run s ((ev, ctx) ∷ rest) = run (advance s ev ctx) rest
