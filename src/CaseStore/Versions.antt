-- ===== src/CaseStore/Versions.antt =====
-- Versions: optimistic locking, and one outbox message for each version of a case
-- (llm-ops-agent/internal/ports/postgres/case_repo.go).
use x_scope_hub_svc_plus.Prelude.{
  ℕ, ◌+◌, ◌≡◌, refl, ap, ◌≢◌, inl, inr, ◌&&◌, Option, none, some, List, [], ◌∷◌, ◌++◌, ◌==◌, ==_iff,
  str_eq_iff, if◌then◌else◌, arith, Option-cases, Bool-cases,
}
use x_scope_hub_svc_plus.Workflow.{State}
use x_scope_hub_svc_plus.CaseStore.Tables.{
  CaseRow, OutboxRow, Db, find_case, set_status, updated_row, with_status,
}
use x_scope_hub_svc_plus.CaseStore.Session.{ok}
use x_scope_hub_svc_plus.CaseStore.Repository.{
  CreateCaseArgs, TransitionArgs, Environment, Codec, create, transition,
}
use x_scope_hub_svc_plus.CaseStore.Atomicity.{IsApplied, transition_ok, transition_cases}
use x_scope_hub_svc_plus.CaseStore.Creation.{IsCreated, create_all_or_nothing}

find_case-set_status :
    (j k v now : ℕ) (to : State) (cs : List CaseRow) (c : CaseRow)
    → find_case j cs ≡ some c
    → find_case j (set_status k to v now cs)
      ≡ some (if c.case_id == k && c.version == v then with_status to now c else c)
unfolding find_case set_status
find_case-set_status j k v now to [] c h = absurd (ground arith)
find_case-set_status j k v now to (x ∷ xs) c h =
    ground (arith, find_case-set_status j k v now to xs c)

find_case-set_status-none :
    (j k v now : ℕ) (to : State) (cs : List CaseRow)
    → find_case j cs ≡ none
    → find_case j (set_status k to v now cs) ≡ none
unfolding find_case set_status
find_case-set_status-none j k v now to [] h = refl
find_case-set_status-none j k v now to (x ∷ xs) h =
    ground (arith, find_case-set_status-none j k v now to xs)

pub find_case-id :
    (j : ℕ) (cs : List CaseRow) (c : CaseRow) → find_case j cs ≡ some c → c.case_id ≡ j
unfolding find_case
find_case-id j [] c h = absurd (ground arith)
find_case-id j (x ∷ xs) c h = ground (arith, find_case-id j xs c)

updated_row-is :
    (j k v now : ℕ) (to : State) (cs : List CaseRow) (c r : CaseRow)
    → k ≡ j
    → find_case j cs ≡ some c
    → c.version ≡ v
    → updated_row k to v now cs ≡ some r
    → r ≡ with_status to now c
unfolding find_case updated_row
updated_row-is j k v now to [] c r q f e h = absurd (ground arith)
updated_row-is j k v now to (x ∷ xs) c r q f e h =
    ground (arith, updated_row-is j k v now to xs c r)

-- The messages about one case, and the version that they should come to.
abbrev pub count : {Json : Type 0} → ℕ → List (OutboxRow Json) → ℕ
count k [] = 0
count k (r ∷ rs) = (if r.aggregate_id == k then 1 else 0) + count k rs

abbrev pub version_of : Option CaseRow → ℕ
version_of none = 0
version_of (some c) = c.version

count-append :
    {Json : Type 0} (k : ℕ) (rs : List (OutboxRow Json)) (r : OutboxRow Json)
    → count k (rs ++ r ∷ []) ≡ count k rs + (if r.aggregate_id == k then 1 else 0)
count-append k [] r = omega arith
count-append k (x ∷ xs) r = omega (arith, count-append k xs r)

-- The outbox holds one message for each version of each case, and none for a case that is not there.
pub record IsCounted {Json : Type 0} (db : Db Json) : Type 0 where
  pub messages : (k : ℕ) → count k db.outbox ≡ version_of (find_case k db.cases)

version-cons :
    (k : ℕ) (c : CaseRow) (cs : List CaseRow) (n : ℕ)
    → c.version ≡ 1
    → find_case c.case_id cs ≡ none
    → n ≡ version_of (find_case k cs)
    → n + (if c.case_id == k then 1 else 0) ≡ version_of (find_case k (c ∷ cs))
unfolding find_case
version-cons k c cs n one unused e = elim (Bool-cases (c.case_id == k)) [
  | inl yes_same ↦ rw yes_same (
      ground (
        arith,
        ap (λ j. version_of (find_case j cs)) ((==_iff c.case_id k).0 yes_same),
        ap version_of unused,
      ))
  | inr other ↦ rw other (omega arith)
]

module _ {Json Extras : Type 0} (codec : Codec Json Extras) where
  -- After a transition the case stands one version further, in the state that was decided.
  moved :
      (env : Environment) (args : TransitionArgs Json Extras) (db db' : Db Json) (row : CaseRow)
      → (a : IsApplied codec env args db db' row)
      → (find_case args.case_id db'.cases ≡ some (with_status a.i.to env.now a.current))
        × (row ≡ with_status a.i.to env.now a.current)
  moved env args db db' row a =
      let same = find_case-id args.case_id db.cases a.current a.found in
      (
        rw a.cases (
            ground (
              arith,
              same,
              find_case-set_status args.case_id a.current.case_id a.current.version env.now a.i.to
                  db.cases a.current,
              a.found,
            )),
        updated_row-is args.case_id a.current.case_id a.current.version env.now a.i.to db.cases
            a.current row same a.found refl a.row,
      )

  applied-IsCounted :
      (env : Environment) (args : TransitionArgs Json Extras) (db db' : Db Json) (row : CaseRow)
      → IsApplied codec env args db db' row
      → IsCounted db
      → IsCounted db'
  applied-IsCounted env args db db' row a h = record {
    messages = λ k.
        let same = find_case-id args.case_id db.cases a.current a.found in
        rw (a.cases, a.outbox, count-append)
          (elim (Option-cases (find_case k db.cases)) [
            | inl missing ↦
                rw
                  (find_case-set_status-none k a.current.case_id a.current.version env.now a.i.to
                    db.cases missing)
                  (ground (arith, h.messages k, a.found, same))
            | inr (c, found) ↦
                rw
                  (find_case-set_status k a.current.case_id a.current.version env.now a.i.to
                    db.cases c found)
                  (ground (arith, h.messages k, a.found, same, find_case-id k db.cases c found))
          ]);
  }

  created-IsCounted :
      (env : Environment) (args : CreateCaseArgs) (db db' : Db Json) (row : CaseRow)
      → IsCreated codec env args db db' row
      → IsCounted db
      → IsCounted db'
  created-IsCounted env args db db' row a h = record {
    messages = λ k.
        rw (a.cases, a.outbox, a.row_is, count-append)
          (version-cons k _ db.cases (count k db.outbox) refl a.unused (h.messages k));
  }

  -- Whatever a transition answers, it keeps one outbox message for each version of each case.
  pub transition-IsCounted :
      (env : Environment) (args : TransitionArgs Json Extras) (db : Db Json)
      → IsCounted db
      → IsCounted (transition codec env args db).1
  transition-IsCounted env args db h = elim (transition_cases codec env args db) [
    | inl same ↦ rw same h
    | inr (row, a) ↦ applied-IsCounted env args db _ row a h
  ]

  -- Whatever a creation answers, it keeps one outbox message for each version of each case.
  pub create-IsCounted :
      (env : Environment) (args : CreateCaseArgs) (db : Db Json)
      → IsCounted db
      → IsCounted (create codec env args db).1
  create-IsCounted env args db h = elim (create_all_or_nothing codec env args db).0 [
    | inl same ↦ rw same h
    | inr (row, c) ↦ created-IsCounted env args db _ row c h
  ]

  no_second :
      {env env' : Environment} {args args' : TransitionArgs Json Extras} {db db' db'' : Db Json}
      {row row' : CaseRow}
      → IsApplied codec env args db db' row
      → IsApplied codec env' args' db' db'' row'
      → args'.case_id ≡ args.case_id
      → args'.if_match ≡ args.if_match
      → args.if_match ≢ 0
      → ⊥
  no_second {env} {env'} {args} {args'} {db} {db'} {row} a a' same_case same_version asked =
      ground (
        arith,
        (moved env args db db' row a).0,
        a'.found,
        a.if_match,
        a'.if_match,
        same_version,
        ap (λ k. find_case k db'.cases) same_case,
      )

  -- Of two transitions of one case that ask for the same version, sent without a key, the second is
  -- refused and changes nothing once the first has succeeded.
  pub transition-version_once :
      (env env' : Environment) (args args' : TransitionArgs Json Extras) (db : Db Json)
      (row : CaseRow)
      → args.idem_key ≡ ""
      → args'.idem_key ≡ ""
      → args'.case_id ≡ args.case_id
      → args'.if_match ≡ args.if_match
      → args.if_match ≢ 0
      → (transition codec env args db).0 ≡ ok row
      → ((transition codec env' args' (transition codec env args db).1).1
          ≡ (transition codec env args db).1)
        × ((row' : CaseRow)
            → (transition codec env' args' (transition codec env args db).1).0 ≢ ok row')
  transition-version_once env env' args args' db row nokey nokey' same_case same_version asked h =
      elim (transition_ok codec env args db row h) [
        | inl (r, given, _, _, _) ↦ absurd (ground (arith, str_eq_iff args.idem_key ""))
        | inr a ↦ (
          elim (transition_cases codec env' args' (transition codec env args db).1) [
            | inl same ↦ same
            | inr (row', a') ↦ absurd (no_second a a' same_case same_version asked)
          ],
          λ row' h'.
              elim (transition_ok codec env' args' (transition codec env args db).1 row' h') [
                | inl (r, given, _, _, _) ↦ absurd (ground (arith, str_eq_iff args'.idem_key ""))
                | inr a' ↦ no_second a a' same_case same_version asked
              ],
        )
      ]
