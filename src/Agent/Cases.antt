-- ===== src/Agent/Cases.antt =====
-- llm-ops-agent/api/handlers.go: createCase and transitionCase, over the repository. The service of
-- llm-ops-agent/internal/services/orchestrator hands both calls on as they are.
-- The parser of UUIDs, the texts of errors and the empty map of extras are a record that the section
-- takes. A request is what gin has decoded of it: the body or an error, the path and the headers.
pub mod Replies
pub mod Gate
pub mod Lock
mod Tests
use x_scope_hub_svc_plus.Prelude.{
  ℕ, String, Bool, true, false, Option, none, some, is_empty, if◌then◌else◌,
}
use x_scope_hub_svc_plus.Prelude.Text.{Text}
use x_scope_hub_svc_plus.Workflow.{State, Event, Context}
use x_scope_hub_svc_plus.CaseStore.Tables.{CaseRow, Db}
use x_scope_hub_svc_plus.CaseStore.Session
use x_scope_hub_svc_plus.CaseStore.Session.{no_rows, refused, Result, ok, err}
use x_scope_hub_svc_plus.CaseStore.Repository.{
  CreateCaseArgs, TransitionArgs, Environment, Codec, create, transition,
}
use x_scope_hub_svc_plus.Agent.Numbers.{parse_int, decimal}

pub record Outside (Extras : Type 0) : Type 0 where
  pub uuid_parse : String → Option ℕ
  pub error_text : Session.Error → String
  pub no_extras : Extras

pub record CreateCaseReq : Type 0 where
  pub decode_error : Option String
  pub tenant_id : ℕ
  pub title : String
  pub idempotency_key : String
  pub actor : String

pub record TransitionReq : Type 0 where
  pub decode_error : Option String
  pub event : Event
  pub id : String
  pub if_match : Text
  pub idempotency_key : String
  pub actor : String

pub data Body : Type 0 where
  error : String → Body
  created : ℕ → State → ℕ → Body  -- the case, its status and its version
  moved : State → ℕ → Body

pub record Reply : Type 0 where
  pub status : ℕ
  pub etag : Option Text
  pub body : Body

abbrev pub failure : ℕ → String → Reply
failure status message = record { status = status; etag = none; body = error message }

-- if ifMatch != "" { ver, _ = strconv.ParseInt(ifMatch, 10, 64) }
unfoldable pub version_asked : Text → ℕ
unfolding parse_int
version_asked if_match = if is_empty if_match then 0 else parse_int if_match

module _ {Json Extras : Type 0} (codec : Codec Json Extras) (out : Outside Extras) where
  unfoldable pub create_reply : Result CaseRow → Reply
  create_reply (err e) = failure 500 (out.error_text e)
  create_reply (ok row) = record {
    status = 200;
    etag = none;
    body = created row.case_id row.status row.version;
  }

  unfoldable pub create_case : Environment → CreateCaseReq → Db Json → Reply × Db Json
  unfolding create_reply
  create_case env req db = elim req.decode_error [
    | some e ↦ (failure 400 e, db)
    | none ↦
        let (r, db') =
          create codec env
            (record {
              tenant_id = req.tenant_id;
              title = req.title;
              actor = req.actor;
              idem_key = req.idempotency_key;
            })
            db in
        (create_reply r, db')
  ]

  -- workflow.Context{Now: time.Now(), Actor: actor}: every other field has its zero value.
  unfoldable pub context_of : Environment → TransitionReq → Context Extras
  context_of env req = record {
    now = env.now;
    plan_complete = false;
    gate_approved = false;
    change_window = false;
    verify_passed = false;
    reason = "";
    actor = req.actor;
    idem_key = "";
    extras = out.no_extras;
  }

  unfoldable pub args_of : Environment → TransitionReq → ℕ → TransitionArgs Json Extras
  unfolding version_asked context_of
  args_of env req case_id = record {
    case_id = case_id;
    event = req.event;
    ctx = context_of env req;
    if_match = version_asked req.if_match;
    idem_key = req.idempotency_key;
    request = some codec.empty;
  }

  unfoldable pub transition_reply : Result CaseRow → Reply
  unfolding decimal
  transition_reply (err (refused e)) = failure 409 (out.error_text (refused e))
  transition_reply (err no_rows) = failure 412 "version mismatch"
  transition_reply (err e) = failure 500 (out.error_text e)
  transition_reply (ok row) = record {
    status = 200;
    etag = some (decimal row.version);
    body = moved row.status row.version;
  }

  -- A request whose path has a UUID.
  transition_of : Environment → TransitionReq → ℕ → Db Json → Reply × Db Json
  unfolding args_of transition_reply
  transition_of env req case_id db =
      let (r, db') = transition codec env (args_of env req case_id) db in (transition_reply r, db')

  unfoldable pub transition_case : Environment → TransitionReq → Db Json → Reply × Db Json
  unfolding transition_of
  transition_case env req db = elim req.decode_error [
    | some e ↦ (failure 400 e, db)
    | none ↦ elim (out.uuid_parse req.id) [
      | none ↦ (failure 400 "invalid id", db)
      | some case_id ↦ transition_of env req case_id db
    ]
  ]
