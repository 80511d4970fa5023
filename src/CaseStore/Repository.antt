-- ===== src/CaseStore/Repository.antt =====
-- llm-ops-agent/internal/ports/postgres/case_repo.go: CreateCase and Transition.
-- json.Marshal and json.Unmarshal are functions that the section takes; an error of json.Marshal,
-- which the code drops, is whatever document the function gives.
use x_scope_hub_svc_plus.Prelude.{
  ℕ, ◌+◌, String, Bool, false, not, ◌&&◌, Option, none, some, List, [], ◌∷◌, ◌==◌, str_eq,
  if◌then◌else◌,
}
use x_scope_hub_svc_plus.Workflow.{
  new, Event, start_analysis, analysis_done, analysis_failed, plan_ready, plan_failed,
  gate_approved, gate_rejected, exec_done, exec_failed, verify_pass, verify_failed, force_park,
  Context, TimelineEntry, OutboxMsg, TransitionIntent, Decision, decide,
}
use x_scope_hub_svc_plus.CaseStore.Tables.{CaseRow, Db}
use x_scope_hub_svc_plus.CaseStore.Session.{
  no_rows, refused, db_error, tx_aborted, Result, ok, err, Commit, committed, rolled_back,
  answer_lost, Session, Tx, ◌>>=◌, ◌>>◌, return, ignore, get_case_for_update, update_case_status,
  create_case, insert_timeline, insert_outbox, insert_idempotency, get_idempotency,
}

-- string(ev)
unfoldable pub event_text : Event → String
event_text start_analysis = "start_analysis"
event_text analysis_done = "analysis_done"
event_text analysis_failed = "analysis_failed"
event_text plan_ready = "plan_ready"
event_text plan_failed = "plan_failed"
event_text gate_approved = "gate_approved"
event_text gate_rejected = "gate_rejected"
event_text exec_done = "exec_done"
event_text exec_failed = "exec_failed"
event_text verify_pass = "verify_pass"
event_text verify_failed = "verify_failed"
event_text force_park = "force_park"
event_text (Event.other s) = s

-- pgtype.Text{String: s, Valid: s != ""}
abbrev pub valid_text : String → Option String
valid_text s = if str_eq s "" then none else some s

-- 24 * time.Hour, in the unit of the clock
abbrev pub day : ℕ
day = 86400000000000

pub record CreateCaseArgs : Type 0 where
  pub tenant_id : ℕ
  pub title : String
  pub actor : String
  pub idem_key : String

pub record TransitionArgs (Json Extras : Type 0) : Type 0 where
  pub case_id : ℕ
  pub event : Event
  pub ctx : Context Extras
  pub if_match : ℕ
  pub idem_key : String
  pub request : Option Json

-- What the environment does to one call: which of its statements fail, how COMMIT ends, the clock,
-- and the next random identifier.
pub record Environment : Type 0 where
  pub lookup_fails : Bool
  pub begin_fails : Bool
  pub case_fails : Bool
  pub update_fails : Bool
  pub timeline_fails : Bool
  pub outbox_fails : Bool
  pub idempotency_fails : Bool
  pub commit : Commit
  pub now : ℕ
  pub fresh : ℕ

-- The documents that the code builds with json.Marshal, and the row that json.Unmarshal reads.
pub record Codec (Json Extras : Type 0) : Type 0 where
  pub title_json : String → Json
  pub created_json : ℕ → Json
  pub timeline_json : TimelineEntry Extras → Json
  pub message_json : OutboxMsg → Json
  pub row_json : CaseRow → Json
  pub json_row : Json → CaseRow
  pub empty : Json  -- []byte{}
  pub is_json : Json → Bool  -- whether the bytes are a JSON document
  pub uuid_text : ℕ → String

module _ {Json A : Type 0} where
  abbrev finish : Commit → Db Json → Result A × Session Json → Result A × Db Json
  finish c db (err e, s) = (err e, db)
  finish committed db (ok a, s) = if s.aborted then (err tx_aborted, db) else (ok a, s.db)
  finish rolled_back db (ok a, s) = (err db_error, db)
  finish answer_lost db (ok a, s) = (err db_error, if s.aborted then db else s.db)

  -- BeginTx, the statements, and Rollback or Commit.
  unfoldable pub in_transaction : Bool → Commit → Tx Json A → Db Json → Result A × Db Json
  in_transaction begin_fails c m db =
      if begin_fails
      then (err db_error, db)
      else finish c db (m (record { db = db; aborted = false }))

  -- The transaction under the idempotency check: a known key answers what was stored under it.
  unfoldable pub once : (Json → A) → Environment → String → Tx Json A → Db Json → Result A × Db Json
  unfolding in_transaction get_idempotency
  once decode env idem_key m db =
      let fresh = in_transaction env.begin_fails env.commit m db in
      if str_eq idem_key "" then fresh else elim (get_idempotency env.lookup_fails idem_key db) [
        | none ↦ fresh
        | some idem ↦
            if not (str_eq idem.idem_key "") then (ok (decode idem.response), db) else fresh
      ]

module _ {Json Extras : Type 0} (codec : Codec Json Extras) where
  open codec use {
    title_json, created_json, timeline_json, message_json, row_json, json_row, empty, is_json,
    uuid_text,
  }

  -- if args.IdemKey != "" { … InsertIdempotency … }
  remember : Environment → String → Option Json → CaseRow → Tx Json (Unit {0})
  unfolding insert_idempotency
  remember env idem_key request row s =
      if str_eq idem_key ""
      then (ok tt, s)
      else insert_idempotency is_json env.idempotency_fails idem_key request (row_json row)
          (env.now + day) s

  unfoldable pub create_case_tx : Environment → CreateCaseArgs → Tx Json CaseRow
  unfolding create_case insert_timeline insert_outbox remember
  create_case_tx env args = do
    row ← create_case env.case_fails env.fresh env.now args.tenant_id args.title "INFO" new none
    ignore (
        insert_timeline env.timeline_fails row.case_id env.now (valid_text args.actor)
          "case_created" (title_json args.title))
    insert_outbox env.outbox_fails "ops_case" row.case_id "evt.case.transition.v1"
        (created_json row.case_id)
    remember env args.idem_key (some empty) row
    return row

  unfoldable pub create : Environment → CreateCaseArgs → Db Json → Result CaseRow × Db Json
  unfolding once create_case_tx
  create env args db = once json_row env args.idem_key (create_case_tx env args) db

  -- for _, m := range intent.Messages
  insert_messages : Bool → ℕ → List OutboxMsg → Tx Json (Unit {0})
  unfolding insert_outbox
  insert_messages fails case_id [] = return tt
  insert_messages fails case_id (m ∷ ms) =
      let rest = insert_messages fails case_id ms in
      insert_outbox fails "ops_case" case_id m.topic (message_json m) >> rest

  -- what follows a decision of the workflow
  unfoldable pub commit_intent :
      Environment → TransitionArgs Json Extras → CaseRow → TransitionIntent Extras → Tx Json CaseRow
  unfolding update_case_status insert_timeline insert_messages remember event_text
  commit_intent env args current i = do
    updated ← update_case_status env.update_fails env.now current.case_id i.to current.version
    insert_timeline env.timeline_fails current.case_id i.timeline.at (valid_text i.timeline.actor)
        (event_text i.timeline.event) (timeline_json i.timeline)
    insert_messages env.outbox_fails current.case_id i.messages
    remember env args.idem_key args.request updated
    return updated

  -- if args.IfMatch != 0 && current.Version != args.IfMatch
  check_if_match : ℕ → ℕ → Tx Json (Unit {0})
  check_if_match if_match version s =
      if not (if_match == 0) && not (version == if_match) then (err no_rows, s) else (ok tt, s)

  decide_and_commit : Environment → TransitionArgs Json Extras → CaseRow → Tx Json CaseRow
  decide_and_commit env args current s =
      elim (decide current.status args.event args.ctx (uuid_text current.case_id)) [
        | Decision.refused e ↦ (err (refused e), s)
        | Decision.intent i ↦ commit_intent env args current i s
      ]

  unfoldable pub transition_tx : Environment → TransitionArgs Json Extras → Tx Json CaseRow
  unfolding get_case_for_update check_if_match decide_and_commit
  transition_tx env args = do
    current ← get_case_for_update env.case_fails args.case_id
    check_if_match args.if_match current.version
    decide_and_commit env args current

  unfoldable pub transition :
      Environment → TransitionArgs Json Extras → Db Json → Result CaseRow × Db Json
  unfolding once transition_tx
  transition env args db = once json_row env args.idem_key (transition_tx env args) db
