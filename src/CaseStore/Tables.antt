-- ===== src/CaseStore/Tables.antt =====
-- The tables of llm-ops-agent/db/migrations and the queries of llm-ops-agent/db/sqlc.
-- A UUID is a number. A JSON document is a value of a type that the section takes. `labels` keeps
-- its column default. Rows are listed in the order of their insertion. A statement that fails and a
-- transaction are in the module Session.
use x_scope_hub_svc_plus.Prelude.{
  ℕ, ◌+◌, String, Bool, false, ◌&&◌, Option, none, some, List, [], ◌∷◌, ◌++◌, ◌==◌, str_eq,
  if◌then◌else◌,
}
use x_scope_hub_svc_plus.Workflow.{State}

pub record CaseRow : Type 0 where
  pub case_id : ℕ
  pub tenant_id : ℕ
  pub title : String
  pub severity : String
  pub status : State
  pub resource_id : Option ℕ
  pub created_at : ℕ
  pub updated_at : ℕ
  pub version : ℕ

pub record TimelineRow (Json : Type 0) : Type 0 where
  pub case_id : ℕ
  pub ts : ℕ
  pub actor : Option String
  pub event : String
  pub payload : Json

pub record OutboxRow (Json : Type 0) : Type 0 where
  pub id : ℕ
  pub aggregate : String
  pub aggregate_id : ℕ
  pub topic : String
  pub payload : Json
  pub published : Bool

pub record Idempotency (Json : Type 0) : Type 0 where
  pub idem_key : String
  pub request : Option Json
  pub response : Json
  pub ttl : ℕ

pub record Db (Json : Type 0) : Type 0 where
  pub cases : List CaseRow
  pub timeline : List (TimelineRow Json)
  pub outbox : List (OutboxRow Json)
  pub idempotency : List (Idempotency Json)
  pub next_id : ℕ  -- the sequence behind outbox.id

-- WHERE case_id = $1
unfoldable pub find_case : ℕ → List CaseRow → Option CaseRow
find_case k [] = none
find_case k (c ∷ cs) = if c.case_id == k then some c else find_case k cs

abbrev pub with_status : State → ℕ → CaseRow → CaseRow
with_status to now c = record c { status = to; updated_at = now; version = c.version + 1 }

-- UPDATE ops_case SET … WHERE case_id = $1 AND version = $3
unfoldable pub set_status : ℕ → State → ℕ → ℕ → List CaseRow → List CaseRow
set_status k to version now [] = []
set_status k to version now (c ∷ cs) =
    (if c.case_id == k && c.version == version then with_status to now c else c)
    ∷ set_status k to version now cs

-- the row that RETURNING gives
unfoldable pub updated_row : ℕ → State → ℕ → ℕ → List CaseRow → Option CaseRow
updated_row k to version now [] = none
updated_row k to version now (c ∷ cs) =
    if c.case_id == k && c.version == version
    then some (with_status to now c)
    else updated_row k to version now cs

module _ {Json : Type 0} where
  -- WHERE idem_key = $1
  unfoldable pub find_key : String → List (Idempotency Json) → Option (Idempotency Json)
  find_key k [] = none
  find_key k (r ∷ rs) = if str_eq r.idem_key k then some r else find_key k rs

  abbrev pub add_outbox : String → ℕ → String → Json → Db Json → Db Json
  add_outbox aggregate aggregate_id topic payload db = record db {
    outbox =
        db.outbox
        ++ record {
          id = db.next_id;
          aggregate = aggregate;
          aggregate_id = aggregate_id;
          topic = topic;
          payload = payload;
          published = false;
        }
          ∷ [];
    next_id = db.next_id + 1;
  }

  abbrev pub add_timeline : ℕ → ℕ → Option String → String → Json → Db Json → Db Json
  add_timeline case_id ts actor event payload db = record db {
    timeline =
        db.timeline
        ++ record { case_id = case_id; ts = ts; actor = actor; event = event; payload = payload }
          ∷ [];
  }

  abbrev pub add_key : String → Option Json → Json → ℕ → Db Json → Db Json
  add_key idem_key request response ttl db = record db {
    idempotency =
        record { idem_key = idem_key; request = request; response = response; ttl = ttl }
        ∷ db.idempotency;
  }
