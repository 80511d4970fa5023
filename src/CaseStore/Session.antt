-- ===== src/CaseStore/Session.antt =====
-- Statements in a transaction (llm-ops-agent/db/sqlc over pgx).
-- What the network and the server may do is an argument: a flag for each statement that says whether
-- it fails. After a failed statement PostgreSQL refuses all others of the same transaction.
use x_scope_hub_svc_plus.Prelude.{
  ℕ, String, Bool, true, false, not, ◌&&◌, ◌||◌, Option, none, some, ◌∷◌, if◌then◌else◌,
}
use x_scope_hub_svc_plus.Workflow
use x_scope_hub_svc_plus.Workflow.{State}
use x_scope_hub_svc_plus.CaseStore.Tables.{
  CaseRow, Idempotency, Db, find_case, set_status, updated_row, find_key, add_outbox, add_timeline,
  add_key,
}

pub data Error : Type 0 where
  no_rows : Error
  refused : Workflow.Error → Error
  db_error : Error  -- the statement, the connection or the server failed
  unique_violation : Error
  tx_aborted : Error

pub data Result (A : Type 0) : Type 0 where
  ok : A → Result A
  err : Error → Result A

-- What COMMIT may do: take effect, fail with no effect, or take effect and lose its answer.
pub data Commit : Type 0 where
  committed rolled_back answer_lost : Commit

pub record Session (Json : Type 0) : Type 0 where
  pub db : Db Json
  pub aborted : Bool

abbrev pub Tx : Type 0 → Type 0 → Type 0
Tx Json A = Session Json → Result A × Session Json

abbrev row_or_no_rows : Option CaseRow → Result CaseRow
row_or_no_rows none = err no_rows
row_or_no_rows (some c) = ok c

module _ {Json : Type 0} where
  infixl 5 ◌>>=◌ ◌>>◌
  abbrev pub ◌>>=◌ : {A B : Type 0} → Tx Json A → (A → Tx Json B) → Tx Json B
  ◌>>=◌ m f s = let (r, s') = m s in elim r [ ok a ↦ f a s' | err e ↦ (err e, s') ]

  abbrev pub ◌>>◌ : {A B : Type 0} → Tx Json A → Tx Json B → Tx Json B
  m >> k = m >>= λ _. k

  abbrev pub return : {A : Type 0} → A → Tx Json A
  return a s = (ok a, s)

  abbrev pub raise : {A : Type 0} → Error → Tx Json A
  raise e s = (err e, s)

  -- `_ = statement`: the error is dropped
  abbrev pub ignore : Tx Json (Unit {0}) → Tx Json (Unit {0})
  ignore m s = (ok tt, (m s).1)

  -- A statement: whether the transaction is aborted already, whether the statement fails, what it does.
  attempt : {A : Type 0} → Bool → Bool → (Db Json → Result A × Db Json) → Tx Json A
  attempt true fails act s = (err tx_aborted, s)
  attempt false true act s = (err db_error, record s { aborted = true })
  attempt false false act s = ((act s.db).0, record s { db = (act s.db).1 })

  unfoldable pub statement : {A : Type 0} → Bool → (Db Json → Result A × Db Json) → Tx Json A
  unfolding attempt
  statement fails act s = attempt s.aborted fails act s

  unfoldable pub get_case_for_update : Bool → ℕ → Tx Json CaseRow
  unfolding statement
  get_case_for_update fails k = statement fails (λ db. (row_or_no_rows (find_case k db.cases), db))

  unfoldable pub update_case_status : Bool → ℕ → ℕ → State → ℕ → Tx Json CaseRow
  unfolding statement
  update_case_status fails now k to version = statement fails (λ db. (
    row_or_no_rows (updated_row k to version now db.cases),
    record db { cases = set_status k to version now db.cases },
  ))

  -- the column defaults give version 1 and the two times; `fresh` is gen_random_uuid()
  unfoldable pub create_case :
      Bool → ℕ → ℕ → ℕ → String → String → State → Option ℕ → Tx Json CaseRow
  unfolding statement
  create_case fails fresh now tenant_id title severity status resource_id = statement fails (λ db.
      let row : CaseRow = record {
        case_id = fresh;
        tenant_id = tenant_id;
        title = title;
        severity = severity;
        status = status;
        resource_id = resource_id;
        created_at = now;
        updated_at = now;
        version = 1;
      } in
      elim (find_case fresh db.cases) [
        | some c ↦ (err unique_violation, db)
        | none ↦ (ok row, record db { cases = row ∷ db.cases })
      ])

  unfoldable pub insert_timeline : Bool → ℕ → ℕ → Option String → String → Json → Tx Json (Unit {0})
  unfolding statement
  insert_timeline fails case_id ts actor event payload =
      statement fails (λ db. (ok tt, add_timeline case_id ts actor event payload db))

  unfoldable pub insert_outbox : Bool → String → ℕ → String → Json → Tx Json (Unit {0})
  unfolding statement
  insert_outbox fails aggregate aggregate_id topic payload =
      statement fails (λ db. (ok tt, add_outbox aggregate aggregate_id topic payload db))

  -- A column of type JSONB takes NULL and what is JSON.
  unfoldable pub fits_jsonb : (Json → Bool) → Option Json → Bool
  fits_jsonb is_json none = true
  fits_jsonb is_json (some document) = is_json document

  -- Both documents stand in columns of type JSONB, and PostgreSQL refuses what is no JSON.
  unfoldable pub insert_idempotency :
      (Json → Bool) → Bool → String → Option Json → Json → ℕ → Tx Json (Unit {0})
  unfolding statement fits_jsonb
  insert_idempotency is_json fails idem_key request response ttl =
      statement (fails || not (fits_jsonb is_json request && is_json response)) (λ db.
        elim (find_key idem_key db.idempotency) [
          | some r ↦ (err unique_violation, db)
          | none ↦ (ok tt, add_key idem_key request response ttl db)
        ])

  -- outside a transaction; `none` is an error or no row
  unfoldable pub get_idempotency : Bool → String → Db Json → Option (Idempotency Json)
  get_idempotency fails idem_key db = if fails then none else find_key idem_key db.idempotency
