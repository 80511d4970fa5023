-- ===== src/Agent/Cases/Tests.antt =====
-- A case over HTTP, and the theorems at it.
use x_scope_hub_svc_plus.Prelude.{
  ℕ, ◌≡◌, ◌≢◌, refl, ◌⊎◌, inl, Bool, false, not, str_eq, none, some, [], ◌∷◌, All, arith,
}
use x_scope_hub_svc_plus.Prelude.Text.{codes}
use x_scope_hub_svc_plus.Workflow.{new, start_analysis, decide}
use x_scope_hub_svc_plus.CaseStore.Tables.{
  CaseRow, Db, find_case, find_key, set_status, updated_row,
}
use x_scope_hub_svc_plus.CaseStore.Session.{
  statement, get_case_for_update, update_case_status, insert_timeline, insert_outbox,
  get_idempotency, insert_idempotency, fits_jsonb, committed, answer_lost, ok,
}
use x_scope_hub_svc_plus.CaseStore.Repository.{
  Environment, Codec, once, in_transaction, commit_intent, transition_tx, transition,
}
use x_scope_hub_svc_plus.CaseStore.Progress.{IsWorking, promised}
use x_scope_hub_svc_plus.Agent.Numbers.{
  decimal, digits, digits_from, is_digit, parse_uint, positive, parse_int,
}
use x_scope_hub_svc_plus.Agent.Cases.{
  Outside, CreateCaseReq, TransitionReq, moved, version_asked, args_of, transition_reply,
  transition_of, transition_case,
}
use x_scope_hub_svc_plus.Agent.Cases.Gate.{
  post, patch, IsUngated, after_calls, after_calls-IsUngated,
}
use x_scope_hub_svc_plus.Agent.Cases.Replies.{
  stored_as, transition_case-safe, transition_case-promised,
}
use x_scope_hub_svc_plus.Agent.Cases.Lock.{transition_case-once}

abbrev row : CaseRow
row = record {
  case_id = 1;
  tenant_id = 7;
  title = "disk full";
  severity = "INFO";
  status = new;
  resource_id = none;
  created_at = 5;
  updated_at = 5;
  version = 1;
}

-- The row of title "" stands for the empty bytes.
abbrev is_row : CaseRow → Bool
is_row c = not (str_eq c.title "")

abbrev codec : Codec CaseRow (Unit {0})
codec = record {
  title_json = λ t. row;
  created_json = λ k. row;
  timeline_json = λ t. row;
  message_json = λ m. row;
  row_json = λ c. c;
  json_row = λ c. c;
  empty = record row { title = "" };
  uuid_text = λ k. "case";
  is_json = is_row;
}

abbrev out : Outside (Unit {0})
out = record { uuid_parse = λ s. some 1; error_text = λ e. "error"; no_extras = tt }

abbrev fine : Environment
fine = record {
  lookup_fails = false;
  begin_fails = false;
  case_fails = false;
  update_fails = false;
  timeline_fails = false;
  outbox_fails = false;
  idempotency_fails = false;
  commit = committed;
  now = 6;
  fresh = 2;
}

abbrev fine-IsWorking : IsWorking fine
fine-IsWorking = record {
  looks_up = refl;
  begins = refl;
  finds = refl;
  updates = refl;
  notes = refl;
  sends = refl;
  remembers = refl;
  commits = refl;
}

abbrev store : Db CaseRow
store = record { cases = row ∷ []; timeline = []; outbox = []; idempotency = []; next_id = 1 }

abbrev analyse : TransitionReq
analyse = record {
  decode_error = none;
  event = start_analysis;
  id = "c";
  if_match = decimal 1;
  idempotency_key = "";
  actor = "ann";
}

abbrev reported : CreateCaseReq
reported = record {
  decode_error = none;
  tenant_id = 7;
  title = "disk full";
  idempotency_key = "";
  actor = "ann";
}

transition_case-promised_example :
    ((transition_case codec out fine analyse store).0
      ≡ transition_reply codec out (
          stored_as codec out ""
            (promised codec (args_of codec out fine analyse 1) 6 (find_case 1 store.cases))))
    × (str_eq "" "" ≡ false → (transition_case codec out fine analyse store).1 ≡ store)
unfolding args_of
transition_case-promised_example =
    transition_case-promised codec out fine analyse 1 store fine-IsWorking refl refl refl (inl refl)

-- A request with a key is answered with 500.
abbrev keyed : TransitionReq
keyed = record analyse { idempotency_key = "k1" }

keyed_fails : (transition_case codec out fine keyed store).0.status ≡ 500
unfolding transition_case transition_of args_of version_asked parse_int parse_uint digits_from
    positive decimal digits is_digit transition transition_tx find_case find_key set_status
    updated_row commit_intent decide transition_reply once in_transaction get_case_for_update
    update_case_status insert_timeline insert_outbox get_idempotency statement insert_idempotency
    fits_jsonb
keyed_fails = refl

-- A request for the version 0 is answered with 200.
abbrev zeroth : TransitionReq
zeroth = record analyse { if_match = codes "0" }

zeroth_passes : (transition_case codec out fine zeroth store).0.status ≡ 200
unfolding transition_case transition_of args_of version_asked parse_int parse_uint digits_from
    positive decimal digits is_digit transition transition_tx find_case find_key set_status
    updated_row commit_intent decide transition_reply once in_transaction get_case_for_update
    update_case_status insert_timeline insert_outbox get_idempotency statement
zeroth_passes = refl

answered : (transition_case codec out fine analyse store).0.status ≡ 200
unfolding transition_case transition_of args_of version_asked parse_int parse_uint digits_from
    positive decimal digits is_digit transition transition_tx find_case find_key set_status
    updated_row commit_intent decide transition_reply once in_transaction get_case_for_update
    update_case_status insert_timeline insert_outbox get_idempotency statement
answered = refl

transition_case-once_example :
    ((transition_case codec out fine analyse
        (transition_case codec out fine analyse store).1).0.status
      ≢ 200)
    × ((transition_case codec out fine analyse (transition_case codec out fine analyse store).1).1
        ≡ (transition_case codec out fine analyse store).1)
transition_case-once_example =
    transition_case-once codec out fine fine analyse analyse store 1 refl refl refl refl refl
      (omega arith) (omega arith) answered

after_calls-IsUngated_example :
    All IsUngated
      (after_calls codec out ((fine, post reported) ∷ (fine, patch analyse) ∷ []) store).cases
after_calls-IsUngated_example =
    after_calls-IsUngated codec out ((fine, post reported) ∷ (fine, patch analyse) ∷ []) store
      (refl, tt)

transition_case-safe_example :
    (((transition_case codec out fine analyse store).0.status ≡ 200)
      × ((k : ℕ) × (row : CaseRow) × (out.uuid_parse analyse.id ≡ some k)
          × ((transition codec fine (args_of codec out fine analyse k) store).0 ≡ ok row)
          × ((transition_case codec out fine analyse store).1
              ≡ (transition codec fine (args_of codec out fine analyse k) store).1)
          × ((transition_case codec out fine analyse store).0.etag ≡ some (decimal row.version))
          × ((transition_case codec out fine analyse store).0.body ≡ moved row.status row.version)))
    ⊎ (((transition_case codec out fine analyse store).0.status ≢ 200)
        × ((fine.commit ≡ answer_lost)
            ⊎ ((transition_case codec out fine analyse store).1 ≡ store)))
transition_case-safe_example = transition_case-safe codec out fine analyse store

-- The form of If-Match that the interface's guide gives, W/"1", is not the version 1.
weak_tag : version_asked (codes "W/\"1\"") ≡ 0
unfolding version_asked parse_int parse_uint digits_from is_digit positive
weak_tag = refl
