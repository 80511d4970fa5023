-- ===== src/CaseStore/Atomicity.antt =====
-- A call of the case repository takes effect as a whole or not at all.
use x_scope_hub_svc_plus.Prelude.{
  ℕ, ◌+◌, ◌≡◌, refl, ◌≢◌, ◌⊎◌, inl, inr, String, Bool, false, none, some, [], ◌∷◌, ◌++◌, str_eq,
  str_eq_iff, arith, Bool-cases, Option-cases,
}
use x_scope_hub_svc_plus.Workflow.{State, OutboxMsg, TransitionIntent, Decision, intent, decide}
use x_scope_hub_svc_plus.Workflow
use x_scope_hub_svc_plus.Workflow.Safety.{decide-intent}
use x_scope_hub_svc_plus.CaseStore.Tables.{
  CaseRow, Idempotency, OutboxRow, TimelineRow, Db, find_case, find_key, set_status, updated_row,
}
use x_scope_hub_svc_plus.CaseStore.Session.{
  Error, ok, err, Commit, committed, rolled_back, answer_lost, Session, Tx, get_idempotency,
}
use x_scope_hub_svc_plus.CaseStore.Repository.{
  event_text, valid_text, day, TransitionArgs, Environment, Codec, in_transaction, once,
  commit_intent, transition_tx, transition,
}

pub Decision-cases :
    {Extras : Type 0} (d : Decision Extras)
    → ((e : Workflow.Error) × (d ≡ Decision.refused e))
      ⊎ ((i : TransitionIntent Extras) × (d ≡ intent i))
Decision-cases (intent i) = inr (i, refl)
Decision-cases (Decision.refused e) = inl (e, refl)

pub Commit-cases : (c : Commit) → (c ≡ answer_lost) ⊎ (c ≢ answer_lost)
Commit-cases answer_lost = inl refl
Commit-cases committed = inr (λ e. cc)
Commit-cases rolled_back = inr (λ e. cc)

module _ {Json A : Type 0} where
  -- The outcome of a transaction: nothing has changed, or its statements have all run.
  pub in_transaction_cases :
      (b : Bool) (c : Commit) (m : Tx Json A) (db : Db Json)
      → ((in_transaction b c m db).1 ≡ db)
        ⊎ ((a : A) × ((m (record { db = db; aborted = false })).0 ≡ ok a)
            × ((m (record { db = db; aborted = false })).1.aborted ≡ false)
            × ((in_transaction b c m db).1 ≡ (m (record { db = db; aborted = false })).1.db))
  unfolding in_transaction
  in_transaction_cases b c m db = ground arith

  pub once-err :
      (decode : Json → A) (env : Environment) (k : String) (m : Tx Json A) (db : Db Json)
      (e : Error)
      → env.commit ≢ answer_lost
      → (once decode env k m db).0 ≡ err e
      → (once decode env k m db).1 ≡ db
  unfolding once
  once-err decode env k m db e h p = ground arith

  -- A call that succeeds has answered from its key, or is its transaction.
  pub once-ok :
      (decode : Json → A) (env : Environment) (k : String) (m : Tx Json A) (db : Db Json) (a : A)
      → (once decode env k m db).0 ≡ ok a
      → ((r : Idempotency Json) × (str_eq k "" ≡ false)
          × (find_key k db.idempotency ≡ some r)
          × (decode r.response ≡ a)
          × ((once decode env k m db).1 ≡ db))
        ⊎ (((m (record { db = db; aborted = false })).0 ≡ ok a)
            × ((once decode env k m db).1 ≡ (m (record { db = db; aborted = false })).1.db))
  unfolding once get_idempotency
  once-ok decode env k m db a h = elim (Bool-cases (str_eq k "")) [
    | inl none_given ↦ inr (ground arith)
    | inr given ↦ elim (Option-cases (get_idempotency env.lookup_fails k db)) [
      | inl unknown ↦ inr (ground arith)
      | inr (r, known) ↦ elim (Bool-cases (str_eq r.idem_key "")) [
        | inl odd ↦ inr (ground arith)
        | inr usual ↦ inl (r, given, ground arith, ground arith, ground arith)
      ]
    ]
  ]

  -- What a keyed call does beside its transaction is nothing.
  pub once_cases :
      (decode : Json → A) (env : Environment) (k : String) (m : Tx Json A) (db : Db Json)
      → ((once decode env k m db).1 ≡ db)
        ⊎ ((a : A) × ((m (record { db = db; aborted = false })).0 ≡ ok a)
            × ((m (record { db = db; aborted = false })).1.aborted ≡ false)
            × ((once decode env k m db).1 ≡ (m (record { db = db; aborted = false })).1.db))
  unfolding once
  once_cases decode env k m db = ground arith

module _ {Json Extras : Type 0} (codec : Codec Json Extras) where
  open codec use {timeline_json, message_json, row_json, uuid_text}

  -- The rows that a transition adds, in the tables' own terms.
  abbrev pub timeline_row : CaseRow → TransitionIntent Extras → TimelineRow Json
  timeline_row c i = record {
    case_id = c.case_id;
    ts = i.timeline.at;
    actor = valid_text i.timeline.actor;
    event = event_text i.timeline.event;
    payload = timeline_json i.timeline;
  }

  abbrev pub outbox_row : CaseRow → ℕ → OutboxMsg → OutboxRow Json
  outbox_row c id m = record {
    id = id;
    aggregate = "ops_case";
    aggregate_id = c.case_id;
    topic = m.topic;
    payload = message_json m;
    published = false;
  }

  abbrev pub key_row : Environment → TransitionArgs Json Extras → CaseRow → Idempotency Json
  key_row env args row = record {
    idem_key = args.idem_key;
    request = args.request;
    response = row_json row;
    ttl = env.now + day;
  }

  -- Everything that one transition writes, and what it needs for that.
  pub record IsApplied (env : Environment) (args : TransitionArgs Json Extras) (db db' : Db Json)
      (updated : CaseRow) : Type 0 where
    pub current : CaseRow
    pub i : TransitionIntent Extras
    pub m : OutboxMsg
    pub found : find_case args.case_id db.cases ≡ some current
    pub if_match : (args.if_match ≡ 0) ⊎ (current.version ≡ args.if_match)
    pub decided : decide current.status args.event args.ctx (uuid_text current.case_id) ≡ intent i
    pub message : i.messages ≡ m ∷ []
    pub row : updated_row current.case_id i.to current.version env.now db.cases ≡ some updated
    pub cases : db'.cases ≡ set_status current.case_id i.to current.version env.now db.cases
    pub timeline : db'.timeline ≡ db.timeline ++ timeline_row current i ∷ []
    pub outbox : db'.outbox ≡ db.outbox ++ outbox_row current db.next_id m ∷ []
    pub keys :
        ((args.idem_key ≡ "") × (db'.idempotency ≡ db.idempotency))
        ⊎ ((find_key args.idem_key db.idempotency ≡ none)
            × (db'.idempotency ≡ key_row env args updated ∷ db.idempotency))

  module _ (env : Environment) (args : TransitionArgs Json Extras) (db : Db Json) where
    commit_intent-IsApplied :
        (c : CaseRow) (i : TransitionIntent Extras) (m : OutboxMsg) (row : CaseRow)
        → find_case args.case_id db.cases ≡ some c
        → (args.if_match ≡ 0) ⊎ (c.version ≡ args.if_match)
        → decide c.status args.event args.ctx (uuid_text c.case_id) ≡ intent i
        → i.messages ≡ m ∷ []
        → (commit_intent codec env args c i (record { db = db; aborted = false })).0 ≡ ok row
        → IsApplied env args db
            (commit_intent codec env args c i (record { db = db; aborted = false })).1.db
            row
    unfolding commit_intent
    commit_intent-IsApplied c i m row found if_match decided message h = record {
      current = c;
      i = i;
      m = m;
      found = found;
      if_match = if_match;
      decided = decided;
      message = message;
      row = ground arith;
      cases = ground arith;
      timeline = ground arith;
      outbox = ground arith;
      keys = ground (arith, str_eq_iff args.idem_key "");
    }

    abbrev start : Session Json
    start = record { db = db; aborted = false }

    -- A transaction that reaches its commit has read its row, passed the version test and the
    -- workflow, and is what `commit_intent` makes of it.
    transition_tx-ok :
        (row : CaseRow)
        → (transition_tx codec env args start).0 ≡ ok row
        → (c : CaseRow) × (i : TransitionIntent Extras) × (find_case args.case_id db.cases ≡ some c)
          × ((args.if_match ≡ 0) ⊎ (c.version ≡ args.if_match))
          × (decide c.status args.event args.ctx (uuid_text c.case_id) ≡ intent i)
          × (transition_tx codec env args start ≡ commit_intent codec env args c i start)
    unfolding transition_tx
    transition_tx-ok row h = elim (Option-cases (find_case args.case_id db.cases)) [
      | inl missing ↦ absurd (ground arith)
      | inr (c, found) ↦
          elim (Decision-cases (decide c.status args.event args.ctx (uuid_text c.case_id))) [
            | inl (e, no_way) ↦ absurd (ground arith)
            | inr (i, decided) ↦ (c, i, found, ground arith, decided, ground arith)
          ]
    ]

    pub transition_tx-IsApplied :
        (row : CaseRow)
        → (transition_tx codec env args start).0 ≡ ok row
        → IsApplied env args db (transition_tx codec env args start).1.db row
    transition_tx-IsApplied row h =
        let (c, i, found, if_match, decided, same) = transition_tx-ok row h in
        rw same (
          commit_intent-IsApplied c i _ row found if_match decided
            (decide-intent c.status args.event args.ctx (uuid_text c.case_id) i decided).6
            (rw same at h))

    -- A transition that succeeds either answers the row that is stored under its idempotency key and
    -- changes nothing, or has applied the whole transition that the workflow decided, at the version
    -- that the caller asked for, and answers the updated row.
    pub transition_ok :
        (row : CaseRow)
        → (transition codec env args db).0 ≡ ok row
        → ((r : Idempotency Json) × (str_eq args.idem_key "" ≡ false)
            × (find_key args.idem_key db.idempotency ≡ some r)
            × (codec.json_row r.response ≡ row)
            × ((transition codec env args db).1 ≡ db))
          ⊎ IsApplied env args db (transition codec env args db).1 row
    unfolding transition
    transition_ok row h =
        elim (once-ok codec.json_row env args.idem_key (transition_tx codec env args) db row h) [
          | inl replayed ↦ inl replayed
          | inr (ran, wrote) ↦ inr (rw wrote (transition_tx-IsApplied row ran))
        ]

    pub transition_cases :
        ((transition codec env args db).1 ≡ db)
        ⊎ ((row : CaseRow) × IsApplied env args db (transition codec env args db).1 row)
    unfolding transition
    transition_cases =
        elim (once_cases codec.json_row env args.idem_key (transition_tx codec env args) db) [
          | inl same ↦ inl same
          | inr (row, ran, clean, wrote) ↦ inr (row, rw wrote (transition_tx-IsApplied row ran))
        ]

    -- Whatever a transition answers, it has changed nothing or has been applied as a whole; where it
    -- answers an error and the answer to its COMMIT was not lost, it has changed nothing.
    pub transition_all_or_nothing :
        (((transition codec env args db).1 ≡ db)
          ⊎ ((row : CaseRow) × IsApplied env args db (transition codec env args db).1 row))
        × ((e : Error)
            → (transition codec env args db).0 ≡ err e
            → (env.commit ≡ answer_lost) ⊎ ((transition codec env args db).1 ≡ db))
    unfolding transition
    transition_all_or_nothing = (
      transition_cases,
      λ e h. elim (Commit-cases env.commit) [
        | inl lost ↦ inl lost
        | inr reliable ↦ inr (
            once-err codec.json_row env args.idem_key (transition_tx codec env args) db e reliable
              h)
      ],
    )
