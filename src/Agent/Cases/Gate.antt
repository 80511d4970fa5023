-- ===== src/Agent/Cases/Gate.antt =====
-- What the HTTP interface of llm-ops-agent/api/handlers.go can do with the guards of the workflow:
-- its context has neither a complete plan nor an approval, a change window or a verification.
use x_scope_hub_svc_plus.Prelude.{
  ℕ, String, ◌≡◌, refl, inl, inr, false, some, List, [], ◌∷◌, All, arith, Option-cases, Bool-cases,
  ◌==◌,
}
use mathlib.Core.Path.{subst}
use x_scope_hub_svc_plus.Workflow.{State, Event, Context, TransitionIntent, intent, decide}
use x_scope_hub_svc_plus.Workflow.Safety.{past_gate}
use x_scope_hub_svc_plus.CaseStore.Tables.{CaseRow, Db, find_case, set_status}
use x_scope_hub_svc_plus.CaseStore.Repository.{
  CreateCaseArgs, Environment, Codec, create, transition,
}
use x_scope_hub_svc_plus.CaseStore.Atomicity.{transition_cases}
use x_scope_hub_svc_plus.CaseStore.Creation.{create_all_or_nothing}
use x_scope_hub_svc_plus.Agent.Cases.{
  Outside, CreateCaseReq, TransitionReq, create_case, context_of, args_of, transition_case,
}

-- A case that is not past the approval gate.
abbrev pub IsUngated : CaseRow → Type 0
IsUngated c = past_gate c.status ≡ false

some-eq : {A : Type 0} {a b : A} → some a ≡ some b → a ≡ b
some-eq h = cc

pub data Call : Type 0 where
  post : CreateCaseReq → Call
  patch : TransitionReq → Call

find_case-All :
    (P : CaseRow → Type 0) (k : ℕ) (cs : List CaseRow) (c : CaseRow)
    → All P cs
    → find_case k cs ≡ some c
    → P c
unfolding find_case
find_case-All P k [] c h e = absurd (ground arith)
find_case-All P k (x ∷ xs) c h e = elim (Bool-cases (x.case_id == k)) [
  | inl here ↦ subst P (some-eq (rw here at e)) h.0
  | inr further ↦ find_case-All P k xs c h.1 (rw further at e)
]

set_status-IsUngated :
    (k v now : ℕ) (to : State) (cs : List CaseRow)
    → past_gate to ≡ false
    → All IsUngated cs
    → All IsUngated (set_status k to v now cs)
unfolding set_status
set_status-IsUngated k v now to [] h all = tt
set_status-IsUngated k v now to (c ∷ cs) h all =
    (ground arith, set_status-IsUngated k v now to cs h all.1)

module _ {Json Extras : Type 0} (codec : Codec Json Extras) (out : Outside Extras) where
  decide-ungated :
      (s : State) (ev : Event) (c : Context Extras) (id : String) (i : TransitionIntent Extras)
      → c.gate_approved ≡ false
      → past_gate s ≡ false
      → decide s ev c id ≡ intent i
      → past_gate i.to ≡ false
  unfolding decide
  decide-ungated s ev c id i unapproved h e = ground arith

  transition-IsUngated :
      (env : Environment) (req : TransitionReq) (case_id : ℕ) (db : Db Json)
      → All IsUngated db.cases
      → All IsUngated (transition codec env (args_of codec out env req case_id) db).1.cases
  unfolding context_of args_of
  transition-IsUngated env req case_id db h =
      elim (transition_cases codec env (args_of codec out env req case_id) db) [
        | inl same ↦ rw same h
        | inr (row, a) ↦ rw a.cases (
            set_status-IsUngated a.current.case_id a.current.version env.now a.i.to db.cases
              (decide-ungated a.current.status req.event (context_of codec out env req) _ a.i refl
                (find_case-All IsUngated case_id db.cases a.current h a.found) a.decided)
              h)
      ]

  transition_case-IsUngated :
      (env : Environment) (req : TransitionReq) (db : Db Json)
      → All IsUngated db.cases
      → All IsUngated (transition_case codec out env req db).1.cases
  unfolding transition_case
  transition_case-IsUngated env req db h = elim (Option-cases req.decode_error) [
    | inr (e, bad) ↦ ground arith
    | inl fine ↦ elim (Option-cases (out.uuid_parse req.id)) [
      | inl bad ↦ ground arith
      | inr (case_id, parsed) ↦
          rw (fine, parsed, transition_case) (transition-IsUngated env req case_id db h)
    ]
  ]

  create-IsUngated :
      (env : Environment) (args : CreateCaseArgs) (db : Db Json)
      → All IsUngated db.cases
      → All IsUngated (create codec env args db).1.cases
  create-IsUngated env args db h = elim (create_all_or_nothing codec env args db).0 [
    | inl same ↦ rw same h
    | inr (row, c) ↦ rw c.cases (rw c.row_is refl, h)
  ]

  create_case-IsUngated :
      (env : Environment) (req : CreateCaseReq) (db : Db Json)
      → All IsUngated db.cases
      → All IsUngated (create_case codec out env req db).1.cases
  unfolding create_case
  create_case-IsUngated env req db h = elim (Option-cases req.decode_error) [
    | inr (e, bad) ↦ ground arith
    | inl fine ↦ rw (fine, create_case) (create-IsUngated env _ db h)
  ]

  -- The store after a list of calls, each with what happens around it.
  unfoldable pub after_calls : List (Environment × Call) → Db Json → Db Json
  after_calls [] db = db
  after_calls ((env, post req) ∷ calls) db = after_calls calls (create_case codec out env req db).1
  after_calls ((env, patch req) ∷ calls) db =
      after_calls calls (transition_case codec out env req db).1

  -- Through the HTTP interface no case gets past the approval gate: where no case of the store is
  -- EXECUTING, VERIFYING or CLOSED, none is after any list of calls, whatever their events, versions
  -- and keys are and whatever fails.
  pub after_calls-IsUngated :
      (calls : List (Environment × Call)) (db : Db Json)
      → All IsUngated db.cases
      → All IsUngated (after_calls calls db).cases
  unfolding after_calls
  after_calls-IsUngated [] db h = h
  after_calls-IsUngated ((env, post req) ∷ calls) db h =
      after_calls-IsUngated calls _ (create_case-IsUngated env req db h)
  after_calls-IsUngated ((env, patch req) ∷ calls) db h =
      after_calls-IsUngated calls _ (transition_case-IsUngated env req db h)
