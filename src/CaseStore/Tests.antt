-- ===== src/CaseStore/Tests.antt =====
-- A case that is created, planned and published, and the theorems at it.
use x_scope_hub_svc_plus.Prelude.{
  ◌*◌, ◌≡◌, refl, ◌⊎◌, String, true, false, Option, none, some, [], ◌∷◌, map, str_eq, take, drop,
  length, arith, ◌==◌,
}
use x_scope_hub_svc_plus.Workflow.{new, analyzing, start_analysis, plan_ready, Context, decide}
use x_scope_hub_svc_plus.CaseStore.Tables.{
  CaseRow, Idempotency, Db, find_case, find_key, set_status, updated_row,
}
use x_scope_hub_svc_plus.CaseStore.Session.{Error, ok, err, committed, answer_lost}
use x_scope_hub_svc_plus.CaseStore.Repository.{
  CreateCaseArgs, TransitionArgs, Environment, Codec, create, transition, commit_intent,
}
use x_scope_hub_svc_plus.CaseStore.Atomicity.{IsApplied, transition_ok, transition_all_or_nothing}
use x_scope_hub_svc_plus.CaseStore.Creation.{IsCreated, create_ok}
use x_scope_hub_svc_plus.CaseStore.Versions.{IsCounted, transition-IsCounted, create-IsCounted}
use x_scope_hub_svc_plus.CaseStore.Idempotence.{transition_replay}
use x_scope_hub_svc_plus.CaseStore.Publisher.{
  Round, Connection, flush_rows, batch, message, publish_all, unpublished, mark, flush, flushes,
}
use x_scope_hub_svc_plus.CaseStore.Publisher.Marks.{HasDistinctIds}
use x_scope_hub_svc_plus.CaseStore.Publisher.Delivery.{
  IsClean, IsSettled, flush_cases, flushes-drain,
}

abbrev blank : CaseRow
blank = record {
  case_id = 0;
  tenant_id = 0;
  title = "";
  severity = "";
  status = new;
  resource_id = none;
  created_at = 0;
  updated_at = 0;
  version = 0;
}

-- Documents that are a row or nothing.
abbrev row_of : Option CaseRow → CaseRow
row_of none = blank
row_of (some c) = c

abbrev codec : Codec (Option CaseRow) (Unit {0})
codec = record {
  title_json = λ t. none;
  created_json = λ k. none;
  timeline_json = λ t. none;
  message_json = λ m. none;
  row_json = λ c. some c;
  json_row = row_of;
  empty = none;
  uuid_text = λ k. "case";
  is_json = λ document. true;
}

row_survives : (c : CaseRow) → codec.json_row (codec.row_json c) ≡ c
row_survives c = refl

abbrev fine : Environment
fine = record {
  lookup_fails = false;
  begin_fails = false;
  case_fails = false;
  update_fails = false;
  timeline_fails = false;
  outbox_fails = false;
  idempotency_fails = false;
  commit = committed;
  now = 5;
  fresh = 1;
}

abbrev vacant : Db (Option CaseRow)
vacant = record { cases = []; timeline = []; outbox = []; idempotency = []; next_id = 1 }

abbrev request : CreateCaseArgs
request = record { tenant_id = 3; title = "disk full"; actor = "ops"; idem_key = "k1" }

abbrev opened : CaseRow
opened = record {
  case_id = 1;
  tenant_id = 3;
  title = "disk full";
  severity = "INFO";
  status = new;
  resource_id = none;
  created_at = 5;
  updated_at = 5;
  version = 1;
}

abbrev db1 : Db (Option CaseRow)
db1 = (create codec fine request vacant).1

creation_works : (create codec fine request vacant).0 ≡ ok opened
unfolding create find_case find_key
creation_works = refl

abbrev clear : Context (Unit {0})
clear = record {
  now = 7;
  plan_complete = true;
  gate_approved = true;
  change_window = true;
  verify_passed = true;
  reason = "";
  actor = "agent";
  idem_key = "";
  extras = tt;
}

abbrev analyse : String → TransitionArgs (Option CaseRow) (Unit {0})
analyse key = record {
  case_id = 1;
  event = start_analysis;
  ctx = clear;
  if_match = 1;
  idem_key = key;
  request = none;
}

abbrev analysed : CaseRow
analysed = record opened { status = analyzing; updated_at = 5; version = 2 }

keyed_works : (transition codec fine (analyse "k2") db1).0 ≡ ok analysed
unfolding create transition find_case find_key set_status updated_row commit_intent decide
keyed_works = refl

unkeyed_works : (transition codec fine (analyse "") db1).0 ≡ ok analysed
unfolding create transition find_case find_key set_status updated_row commit_intent decide
unkeyed_works = refl

create_ok_example :
    ((r : Idempotency (Option CaseRow)) × (str_eq "k1" "" ≡ false)
      × (find_key "k1" [] ≡ some r)
      × (row_of r.response ≡ opened)
      × (db1 ≡ vacant))
    ⊎ IsCreated codec fine request vacant db1 opened
create_ok_example = create_ok codec fine request vacant opened creation_works

abbrev db2 : Db (Option CaseRow)
db2 = (transition codec fine (analyse "k2") db1).1

transition_ok_example :
    ((r : Idempotency (Option CaseRow)) × (str_eq "k2" "" ≡ false)
      × (find_key "k2" db1.idempotency ≡ some r)
      × (row_of r.response ≡ analysed)
      × (db2 ≡ db1))
    ⊎ IsApplied codec fine (analyse "k2") db1 db2 analysed
transition_ok_example = transition_ok codec fine (analyse "k2") db1 analysed keyed_works

transition_all_or_nothing_example :
    ((db2 ≡ db1) ⊎ ((row : CaseRow) × IsApplied codec fine (analyse "k2") db1 db2 row))
    × ((e : Error)
        → (transition codec fine (analyse "k2") db1).0 ≡ err e
        → (fine.commit ≡ answer_lost) ⊎ (db2 ≡ db1))
transition_all_or_nothing_example = transition_all_or_nothing codec fine (analyse "k2") db1

vacant-IsCounted : IsCounted vacant
unfolding find_case
vacant-IsCounted = record { messages = λ k. refl }

transition-IsCounted_example : IsCounted db2
transition-IsCounted_example =
    transition-IsCounted codec fine (analyse "k2") db1
      (create-IsCounted codec fine request vacant vacant-IsCounted)

-- The key of the creation is taken, and the look-up that would tell fails.
abbrev blind : Environment
blind = record fine { lookup_fails = true }

abbrev stored : Idempotency (Option CaseRow)
stored = record { idem_key = "k1"; request = some none; response = some opened; ttl = 0 }

abbrev taken : Db (Option CaseRow)
taken = record vacant { cases = opened ∷ []; idempotency = stored ∷ [] }

transition_replay_example :
    transition codec fine (record (analyse "k2") { event = plan_ready }) db2 ≡ (ok analysed, db2)
transition_replay_example =
    transition_replay codec fine fine (analyse "k2") (record (analyse "k2") { event = plan_ready })
      db1 analysed row_survives refl refl refl keyed_works

abbrev smooth : Round
smooth = record {
  begin_fails = false;
  list_fails = false;
  publish_fails = λ k. false;
  mark_fails = false;
  commit = committed;
  flush_fails = false;
}

-- The broker refuses the second row.
abbrev rough : Round
rough = record smooth { publish_fails = λ k. k == 2 }

abbrev two_rows : Db (Option CaseRow)
two_rows = record vacant {
  outbox =
      record {
        id = 1;
        aggregate = "ops_case";
        aggregate_id = 1;
        topic = "t";
        payload = none;
        published = false;
      }
      ∷ record {
        id = 2;
        aggregate = "ops_case";
        aggregate_id = 1;
        topic = "u";
        payload = none;
        published = false;
      }
      ∷ [];
}

abbrev quiet : Connection (String × Option CaseRow)
quiet = record { pending = []; delivered = [] }

-- The first message waits in the connection and its row in the table: it will be sent again.
sent_again : flush rough quiet two_rows ≡ (record quiet { pending = ("t", none) ∷ [] }, two_rows)
unfolding flush flush_rows unpublished publish_all
sent_again = refl

-- The rows are marked and the broker has nothing of them.
abbrev cut_off : Round
cut_off = record smooth { flush_fails = true }

lost_messages :
    ((flush cut_off quiet two_rows).0.delivered ≡ [])
    × (unpublished (flush cut_off quiet two_rows).1.outbox ≡ [])
unfolding flush flush_rows unpublished publish_all mark
lost_messages = (refl, refl)

flush_cases_example :
    ((flush cut_off quiet two_rows).1 ≡ two_rows)
    ⊎ IsSettled cut_off
        (take batch (unpublished two_rows.outbox))
        quiet
        two_rows
        (flush cut_off quiet two_rows)
flush_cases_example = flush_cases cut_off quiet two_rows

smooth-IsClean : IsClean smooth
smooth-IsClean = record {
  begins = refl;
  lists = refl;
  publishes = λ k. refl;
  marks = refl;
  commits = refl;
  flushes_out = refl;
}

two_rows-HasDistinctIds : HasDistinctIds two_rows.outbox
two_rows-HasDistinctIds = omega arith

flushes-drain_example :
    ((flushes (smooth ∷ []) quiet two_rows).0.delivered
      ≡ map message (take (length (smooth ∷ []) * batch) (unpublished two_rows.outbox)))
    × ((flushes (smooth ∷ []) quiet two_rows).0.pending ≡ [])
    × (unpublished (flushes (smooth ∷ []) quiet two_rows).1.outbox
        ≡ drop (length (smooth ∷ []) * batch) (unpublished two_rows.outbox))
flushes-drain_example =
    flushes-drain (smooth ∷ []) quiet two_rows (smooth-IsClean, tt) two_rows-HasDistinctIds refl
