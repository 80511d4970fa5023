-- ===== src/CaseStore/Creation.antt =====
-- What CreateCase of llm-ops-agent/internal/ports/postgres/case_repo.go writes.
use x_scope_hub_svc_plus.Prelude.{
  ◌+◌, ◌≡◌, ◌⊎◌, inl, inr, false, none, some, [], ◌∷◌, ◌++◌, str_eq, str_eq_iff, arith,
}
use x_scope_hub_svc_plus.Workflow.{new}
use x_scope_hub_svc_plus.CaseStore.Tables.{CaseRow, Idempotency, Db, find_case, find_key}
use x_scope_hub_svc_plus.CaseStore.Session.{Error, ok, err, Session, answer_lost}
use x_scope_hub_svc_plus.CaseStore.Repository.{
  valid_text, day, CreateCaseArgs, Environment, Codec, create_case_tx, create,
}
use x_scope_hub_svc_plus.CaseStore.Atomicity.{once-ok, once-err, once_cases, Commit-cases}

module _ {Json Extras : Type 0} (codec : Codec Json Extras) where
  open codec use {title_json, created_json, row_json, empty}

  -- Everything that one creation writes, and what it needs for that.
  pub record IsCreated (env : Environment) (args : CreateCaseArgs) (db db' : Db Json)
      (row : CaseRow) : Type 0 where
    pub unused : find_case env.fresh db.cases ≡ none
    pub row_is : row ≡ record {
      case_id = env.fresh;
      tenant_id = args.tenant_id;
      title = args.title;
      severity = "INFO";
      status = new;
      resource_id = none;
      created_at = env.now;
      updated_at = env.now;
      version = 1;
    }
    pub cases : db'.cases ≡ row ∷ db.cases
    pub timeline :
        db'.timeline
        ≡ db.timeline
          ++ record {
            case_id = row.case_id;
            ts = env.now;
            actor = valid_text args.actor;
            event = "case_created";
            payload = title_json args.title;
          }
            ∷ []
    pub outbox :
        db'.outbox
        ≡ db.outbox
          ++ record {
            id = db.next_id;
            aggregate = "ops_case";
            aggregate_id = row.case_id;
            topic = "evt.case.transition.v1";
            payload = created_json row.case_id;
            published = false;
          }
            ∷ []
    pub keys :
        ((args.idem_key ≡ "") × (db'.idempotency ≡ db.idempotency))
        ⊎ ((find_key args.idem_key db.idempotency ≡ none)
            × (db'.idempotency
                ≡ record {
                  idem_key = args.idem_key;
                  request = some empty;
                  response = row_json row;
                  ttl = env.now + day;
                }
                  ∷ db.idempotency))

  module _ (env : Environment) (args : CreateCaseArgs) (db : Db Json) where
    abbrev start : Session Json
    start = record { db = db; aborted = false }

    create_case_tx-IsCreated :
        (row : CaseRow)
        → (create_case_tx codec env args start).0 ≡ ok row
        → IsCreated env args db (create_case_tx codec env args start).1.db row
    unfolding create_case_tx
    create_case_tx-IsCreated row h = record {
      unused = ground arith;
      row_is = ground arith;
      cases = ground arith;
      timeline = ground arith;
      outbox = ground arith;
      keys = ground (arith, str_eq_iff args.idem_key "");
    }

    -- A creation that succeeds either answers the row stored under its idempotency key and changes
    -- nothing, or has added a fresh case in state NEW at version 1 with its outbox message and its
    -- timeline entry, although the code drops the error of the statement that adds the entry.
    pub create_ok :
        (row : CaseRow)
        → (create codec env args db).0 ≡ ok row
        → ((r : Idempotency Json) × (str_eq args.idem_key "" ≡ false)
            × (find_key args.idem_key db.idempotency ≡ some r)
            × (codec.json_row r.response ≡ row)
            × ((create codec env args db).1 ≡ db))
          ⊎ IsCreated env args db (create codec env args db).1 row
    unfolding create
    create_ok row h =
        elim (once-ok codec.json_row env args.idem_key (create_case_tx codec env args) db row h) [
          | inl replayed ↦ inl replayed
          | inr (ran, wrote) ↦ inr (rw wrote (create_case_tx-IsCreated row ran))
        ]

    -- Whatever a creation answers, it has changed nothing or has been applied as a whole; where it
    -- answers an error and the answer to its COMMIT was not lost, it has changed nothing.
    pub create_all_or_nothing :
        (((create codec env args db).1 ≡ db)
          ⊎ ((row : CaseRow) × IsCreated env args db (create codec env args db).1 row))
        × ((e : Error)
            → (create codec env args db).0 ≡ err e
            → (env.commit ≡ answer_lost) ⊎ ((create codec env args db).1 ≡ db))
    unfolding create
    create_all_or_nothing = (
      elim (once_cases codec.json_row env args.idem_key (create_case_tx codec env args) db) [
        | inl same ↦ inl same
        | inr (row, ran, clean, wrote) ↦ inr (row, rw wrote (create_case_tx-IsCreated row ran))
      ],
      λ e h. elim (Commit-cases env.commit) [
        | inl lost ↦ inl lost
        | inr reliable ↦ inr (
            once-err codec.json_row env args.idem_key (create_case_tx codec env args) db e reliable
              h)
      ],
    )
