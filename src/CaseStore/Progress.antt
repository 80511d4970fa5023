-- ===== src/CaseStore/Progress.antt =====
-- A call of the case repository goes through where nothing fails
-- (llm-ops-agent/internal/ports/postgres/case_repo.go).
use x_scope_hub_svc_plus.Prelude.{
  ℕ, ◌≡◌, ◌≢◌, refl, ◌⊎◌, inl, inr, true, false, ◌||◌, String, Option, none, some, List, [], ◌∷◌,
  ◌==◌, str_eq, if◌then◌else◌, arith, Bool-cases,
}
use x_scope_hub_svc_plus.Workflow
use x_scope_hub_svc_plus.Workflow.{TransitionIntent, Decision, OutboxMsg, State, intent, decide}
use x_scope_hub_svc_plus.Workflow.Safety.{decide-intent}
use x_scope_hub_svc_plus.CaseStore.Tables.{
  CaseRow, Db, find_case, find_key, updated_row, with_status,
}
use x_scope_hub_svc_plus.CaseStore.Session
use x_scope_hub_svc_plus.CaseStore.Atomicity.{Decision-cases}
use x_scope_hub_svc_plus.CaseStore.Session.{
  get_idempotency, no_rows, refused, db_error, Result, ok, err, committed, Session, Tx,
  get_case_for_update, update_case_status, insert_timeline, insert_outbox, insert_idempotency,
  fits_jsonb,
}
use x_scope_hub_svc_plus.CaseStore.Versions.{find_case-id}
use x_scope_hub_svc_plus.CaseStore.Repository.{
  TransitionArgs, Environment, Codec, in_transaction, once, commit_intent, transition_tx,
  transition,
}

-- Nothing fails around a call.
pub record IsWorking (env : Environment) : Type 0 where
  pub looks_up : env.lookup_fails ≡ false
  pub begins : env.begin_fails ≡ false
  pub finds : env.case_fails ≡ false
  pub updates : env.update_fails ≡ false
  pub notes : env.timeline_fails ≡ false
  pub sends : env.outbox_fails ≡ false
  pub remembers : env.idempotency_fails ≡ false
  pub commits : env.commit ≡ committed

updated_row-found :
    (k now : ℕ) (to : State) (cs : List CaseRow) (c : CaseRow)
    → find_case k cs ≡ some c
    → updated_row c.case_id to c.version now cs ≡ some (with_status to now c)
unfolding find_case updated_row
updated_row-found k now to [] c h = absurd (ground arith)
updated_row-found k now to (x ∷ xs) c h =
    ground (arith, updated_row-found k now to xs c, find_case-id k (x ∷ xs) c)

once-works :
    {Json A : Type 0} (decode : Json → A) (env : Environment) (k : String) (m : Tx Json A)
    (db : Db Json) (r : Result A)
    → IsWorking env
    → (str_eq k "" ≡ true) ⊎ (find_key k db.idempotency ≡ none)
    → (m (record { db = db; aborted = false })).0 ≡ r
    → (((e : Session.Error) × (r ≡ err e))
        ⊎ ((m (record { db = db; aborted = false })).1.aborted ≡ false))
    → (once decode env k m db).0 ≡ r
unfolding once get_idempotency in_transaction
once-works decode env k m db r w fresh ran (inl (e, failed)) = ground arith
once-works decode env k m db (ok a) w fresh ran (inr clean) = ground arith
once-works decode env k m db (err e) w fresh ran (inr clean) = ground arith

-- What a transition of a case promises: the row after it, or the error.
module _ {Json Extras : Type 0} (codec : Codec Json Extras) where
  unfoldable pub promised_by :
      TransitionArgs Json Extras → ℕ → CaseRow → Decision Extras → Result CaseRow
  promised_by args now c (Decision.refused e) = err (refused e)
  promised_by args now c (intent i) = ok (with_status i.to now c)

  unfoldable pub promised : TransitionArgs Json Extras → ℕ → Option CaseRow → Result CaseRow
  unfolding promised_by
  promised args now none = err no_rows
  promised args now (some c) =
      if args.if_match == 0 || c.version == args.if_match
      then promised_by args now c (decide c.status args.event args.ctx (codec.uuid_text c.case_id))
      else err no_rows

  -- What is kept of it where the documents of a new key have to fit into the table of the keys.
  unfoldable pub kept : TransitionArgs Json Extras → Result CaseRow → Result CaseRow
  kept args (err e) = err e
  kept args (ok c) =
      if str_eq args.idem_key "" || fits_jsonb codec.is_json args.request
      then ok c
      else err db_error

module _ {Json Extras : Type 0} (codec : Codec Json Extras) where
  module _ (env : Environment) (args : TransitionArgs Json Extras) (db : Db Json)
      (w : IsWorking env) where
    -- The call has no key, or one that is not stored, and the rows of cases are JSON.
    abbrev pub IsFreshKey : Type 0
    IsFreshKey =
        (str_eq args.idem_key "" ≡ true)
        ⊎ ((find_key args.idem_key db.idempotency ≡ none)
            × ((c : CaseRow) → codec.is_json (codec.row_json c) ≡ true))

    IsNewKey-find :
        IsFreshKey
        → (str_eq args.idem_key "" ≡ true) ⊎ (find_key args.idem_key db.idempotency ≡ none)
    IsNewKey-find (inl keyless) = inl keyless
    IsNewKey-find (inr (fresh, rows)) = inr fresh

    -- The call ends without a failed statement, or in an error.
    abbrev IsEnded : Tx Json CaseRow → Result CaseRow → Type 0
    IsEnded m r =
        ((m (record { db = db; aborted = false })).0 ≡ r)
        × (((e : Session.Error) × (r ≡ err e))
            ⊎ ((m (record { db = db; aborted = false })).1.aborted ≡ false))

    commit_intent-works :
        (c : CaseRow) (i : TransitionIntent Extras) (m : OutboxMsg)
        → IsFreshKey
        → find_case args.case_id db.cases ≡ some c
        → i.messages ≡ m ∷ []
        → IsEnded
            (commit_intent codec env args c i)
            (kept codec args (ok (with_status i.to env.now c)))
    unfolding commit_intent kept
    commit_intent-works c i m (inl keyless) found single =
        let row = updated_row-found args.case_id env.now i.to db.cases c found in
        (ground (arith, row), inr (ground (arith, row)))
    commit_intent-works c i m (inr (fresh, rows)) found single =
        let row = updated_row-found args.case_id env.now i.to db.cases c found in
        let fits = rows (with_status i.to env.now c) in
        elim (Bool-cases (str_eq args.idem_key "" || fits_jsonb codec.is_json args.request)) [
          | inl good ↦ (ground (arith, row, fits), inr (ground (arith, row, fits)))
          | inr bad ↦ (ground (arith, row, fits), inl (db_error, ground arith))
        ]

    -- What the code asks of the version.
    abbrev IsMatched : CaseRow → Type 0
    IsMatched c = (args.if_match ≡ 0) ⊎ (c.version ≡ args.if_match)

    transition_tx-works :
        (c : CaseRow) (i : TransitionIntent Extras)
        → find_case args.case_id db.cases ≡ some c
        → IsMatched c
        → decide c.status args.event args.ctx (codec.uuid_text c.case_id) ≡ intent i
        → transition_tx codec env args (record { db = db; aborted = false })
          ≡ commit_intent codec env args c i (record { db = db; aborted = false })
    unfolding transition_tx
    transition_tx-works c i found matched decided = ground arith

    transition_tx-missing :
        find_case args.case_id db.cases ≡ none
        → (transition_tx codec env args (record { db = db; aborted = false })).0 ≡ err no_rows
    unfolding transition_tx
    transition_tx-missing missing = ground arith

    transition_tx-stale :
        (c : CaseRow)
        → find_case args.case_id db.cases ≡ some c
        → args.if_match ≢ 0
        → c.version ≢ args.if_match
        → (transition_tx codec env args (record { db = db; aborted = false })).0 ≡ err no_rows
    unfolding transition_tx
    transition_tx-stale c found asked other = ground arith

    transition_tx-refused :
        (c : CaseRow) (e : Workflow.Error)
        → find_case args.case_id db.cases ≡ some c
        → IsMatched c
        → decide c.status args.event args.ctx (codec.uuid_text c.case_id) ≡ Decision.refused e
        → (transition_tx codec env args (record { db = db; aborted = false })).0 ≡ err (refused e)
    unfolding transition_tx
    transition_tx-refused c e found matched decided = ground arith

    transition_tx-promised :
        (o : Option CaseRow)
        → IsFreshKey
        → find_case args.case_id db.cases ≡ o
        → IsEnded (transition_tx codec env args) (kept codec args (promised codec args env.now o))
    unfolding promised kept
    transition_tx-promised none fresh missing = (transition_tx-missing missing, inl (no_rows, refl))
    transition_tx-promised (some c) fresh found =
        elim (Bool-cases (args.if_match == 0 || c.version == args.if_match)) [
          | inr other ↦ (
            rw (other, promised, kept) (transition_tx-stale c found (ground arith) (ground arith)),
            inl (no_rows, ground arith),
          )
          | inl matched ↦
              elim (Decision-cases
                (decide c.status args.event args.ctx (codec.uuid_text c.case_id))) [
                  | inl (e, bad) ↦ (
                    rw (matched, bad, promised, kept)
                        (transition_tx-refused c e found (ground arith) bad),
                    inl (refused e, ground arith),
                  )
                  | inr (i, good) ↦
                      rw
                        (matched, good, promised, transition_tx-works c i found (ground arith) good)
                        (commit_intent-works c i _ fresh found
                          (decide-intent c.status args.event args.ctx (codec.uuid_text c.case_id) i
                            good).6)
                ]
        ]

    -- Where nothing fails, the rows of cases are JSON and the call has no key or a new one, a
    -- transition answers what it promises: the case in the state that the workflow decides, one version
    -- further, or the workflow's refusal, or, for a case that is missing or stands at another version,
    -- no rows. Only a call with a key and a request that is no JSON fails where it would succeed.
    pub transition-promised :
        IsFreshKey
        → (transition codec env args db).0
          ≡ kept codec args (promised codec args env.now (find_case args.case_id db.cases))
    unfolding transition
    transition-promised fresh =
        let (run, clean) = transition_tx-promised (find_case args.case_id db.cases) fresh refl in
        once-works codec.json_row env args.idem_key (transition_tx codec env args) db _ w
          (IsNewKey-find fresh) run clean
