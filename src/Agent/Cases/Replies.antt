-- ===== src/Agent/Cases/Replies.antt =====
-- What llm-ops-agent/api/handlers.go answers to a transition.
use x_scope_hub_svc_plus.Prelude.{
  ℕ, ◌≡◌, ◌≢◌, refl, ap, ◌⊎◌, inl, inr, none, some, arith, Option-cases, String, false, str_eq,
  if◌then◌else◌, sym, ◌∙◌,
}
use x_scope_hub_svc_plus.CaseStore.Tables.{CaseRow, Db, find_case}
use x_scope_hub_svc_plus.CaseStore.Session
use x_scope_hub_svc_plus.CaseStore.Session.{
  no_rows, refused, Result, ok, err, committed, answer_lost, fits_jsonb,
}
use x_scope_hub_svc_plus.CaseStore.Repository.{Environment, Codec, transition}
use x_scope_hub_svc_plus.CaseStore.Atomicity.{transition_all_or_nothing}
use x_scope_hub_svc_plus.CaseStore.Progress.{
  IsWorking, IsFreshKey, promised, kept, transition-promised,
}
use x_scope_hub_svc_plus.Agent.Numbers.{decimal}
use x_scope_hub_svc_plus.Agent.Cases.{
  Outside, TransitionReq, moved, args_of, transition_reply, transition_of, transition_case,
}

some-eq : {A : Type 0} {a b : A} → some a ≡ some b → a ≡ b
some-eq h = cc

Result-cases :
    {A : Type 0} (r : Result A) → ((a : A) × (r ≡ ok a)) ⊎ ((e : Session.Error) × (r ≡ err e))
Result-cases (ok a) = inl (a, refl)
Result-cases (err e) = inr (e, refl)

module _ {Json Extras : Type 0} (codec : Codec Json Extras) (out : Outside Extras) where
  failed-status :
      (e : Session.Error)
      → ((transition_reply codec out (err e)).status ≡ 409)
        ⊎ (((transition_reply codec out (err e)).status ≡ 412)
            ⊎ ((transition_reply codec out (err e)).status ≡ 500))
  unfolding transition_reply
  failed-status (refused e) = inl refl
  failed-status no_rows = inr (inl refl)
  failed-status Session.db_error = inr (inr refl)
  failed-status Session.unique_violation = inr (inr refl)
  failed-status Session.tx_aborted = inr (inr refl)

  -- What a request with a body and a UUID gets.
  transition_of-safe :
      (env : Environment) (req : TransitionReq) (k : ℕ) (db : Db Json)
      → (((transition_of codec out env req k db).0.status ≡ 200)
          × ((row : CaseRow) × ((transition codec env (args_of codec out env req k) db).0 ≡ ok row)
              × ((transition_of codec out env req k db).0.etag ≡ some (decimal row.version))
              × ((transition_of codec out env req k db).0.body ≡ moved row.status row.version)))
        ⊎ (((transition_of codec out env req k db).0.status ≢ 200)
            × ((env.commit ≡ answer_lost) ⊎ ((transition_of codec out env req k db).1 ≡ db)))
  unfolding transition_of
  transition_of-safe env req k db =
      elim (Result-cases (transition codec env (args_of codec out env req k) db).0) [
        | inl (row, good) ↦ inl (
          rw (good, transition_reply) refl,
          (row, good, rw (good, transition_reply) refl, rw (good, transition_reply) refl),
        )
        | inr (e, bad) ↦ inr (
          (λ h. absurd (
              omega (
                arith,
                failed-status e,
                ap (λ (r : Result CaseRow). (transition_reply codec out r).status) bad,
              ))),
          (transition_all_or_nothing codec env (args_of codec out env req k) db).1 e bad,
        )
      ]

  -- A transition that is not answered with 200 has changed nothing, unless the answer to its COMMIT
  -- was lost; and one that is, is answered with the status and the version of the row, and the
  -- version as the ETag.
  pub transition_case-safe :
      (env : Environment) (req : TransitionReq) (db : Db Json)
      → (((transition_case codec out env req db).0.status ≡ 200)
          × ((k : ℕ) × (row : CaseRow) × (out.uuid_parse req.id ≡ some k)
              × ((transition codec env (args_of codec out env req k) db).0 ≡ ok row)
              × ((transition_case codec out env req db).1
                  ≡ (transition codec env (args_of codec out env req k) db).1)
              × ((transition_case codec out env req db).0.etag ≡ some (decimal row.version))
              × ((transition_case codec out env req db).0.body ≡ moved row.status row.version)))
        ⊎ (((transition_case codec out env req db).0.status ≢ 200)
            × ((env.commit ≡ answer_lost) ⊎ ((transition_case codec out env req db).1 ≡ db)))
  unfolding transition_case
  transition_case-safe env req db = elim (Option-cases req.decode_error) [
    | inr (e, bad) ↦ inr ((λ h. absurd (ground arith)), inr (ground arith))
    | inl fine ↦ elim (Option-cases (out.uuid_parse req.id)) [
      | inl bad ↦ inr ((λ h. absurd (ground arith)), inr (ground arith))
      | inr (k, parsed) ↦
          let same : transition_case codec out env req db ≡ transition_of codec out env req k db =
            rw (fine, parsed, transition_case) in
          rw same (elim (transition_of-safe env req k db) [
            | inr bad ↦ inr bad
            | inl (good, (row, ran, etag, body)) ↦
                inl (good, (k, row, parsed, ran, unfold transition_of in refl, etag, body))
          ])
    ]
  ]

  -- The store after a request is that before it, or that after the transition.
  pub transition_case-store :
      (env : Environment) (req : TransitionReq) (db : Db Json)
      → ((transition_case codec out env req db).1 ≡ db)
        ⊎ ((k : ℕ) × (out.uuid_parse req.id ≡ some k)
            × ((transition_case codec out env req db).1
                ≡ (transition codec env (args_of codec out env req k) db).1))
  unfolding transition_case transition_of
  transition_case-store env req db = elim (Option-cases req.decode_error) [
    | inr (e, bad) ↦ inl (ground arith)
    | inl fine ↦ elim (Option-cases (out.uuid_parse req.id)) [
      | inl bad ↦ inl (ground arith)
      | inr (k, parsed) ↦ inr (k, parsed, rw (fine, parsed, transition_case) refl)
    ]
  ]

  transition_case-of :
      (env : Environment) (req : TransitionReq) (k : ℕ) (db : Db Json)
      → req.decode_error ≡ none
      → out.uuid_parse req.id ≡ some k
      → transition_case codec out env req db ≡ transition_of codec out env req k db
  unfolding transition_case
  transition_case-of env req k db fine parsed = rw (fine, parsed, transition_case)

  -- What the empty document of the handler leaves of a promise: where it is no JSON, a request with a
  -- key fails as it is stored.
  unfoldable pub stored_as : String → Result CaseRow → Result CaseRow
  stored_as idem_key (err e) = err e
  stored_as idem_key (ok row) = if str_eq idem_key "" then ok row else err Session.db_error

  kept-stored_as :
      (env : Environment) (req : TransitionReq) (k : ℕ) (r : Result CaseRow)
      → codec.is_json codec.empty ≡ false
      → kept codec (args_of codec out env req k) r ≡ stored_as req.idempotency_key r
  unfolding stored_as kept args_of fits_jsonb
  kept-stored_as env req k (err e) no_json = refl
  kept-stored_as env req k (ok row) no_json = ground arith

  stored_as-keyed :
      (key : String) (r : Result CaseRow) (row : CaseRow)
      → str_eq key "" ≡ false
      → stored_as key r ≢ ok row
  unfolding stored_as
  stored_as-keyed key (err e) row keyed h = absurd cc
  stored_as-keyed key (ok c) row keyed h = absurd (cc (rw keyed at h))

  -- Where nothing fails, the rows of cases are JSON and the empty document is none, a transition that
  -- can be decoded, without a key or with a key that is not stored, is answered as the workflow and the
  -- version promise. Without a key that is: 200 with the row, 409 for a refusal of the workflow, 412 for
  -- a case that is missing or a version that does not match, where an If-Match of 0, and one that is no
  -- number, asks for no version and so gets no 412. With a new key a refusal and a mismatch are answered
  -- alike, but what would be a 200 is a 500 that leaves the store as it was.
  pub transition_case-promised :
      (env : Environment) (req : TransitionReq) (k : ℕ) (db : Db Json)
      → (w : IsWorking env) → req.decode_error ≡ none
      → out.uuid_parse req.id ≡ some k
      → codec.is_json codec.empty ≡ false
      → IsFreshKey codec env (args_of codec out env req k) db w
      → ((transition_case codec out env req db).0
          ≡ transition_reply codec out (
              stored_as req.idempotency_key
                (promised codec (args_of codec out env req k) env.now (find_case k db.cases))))
        × (str_eq req.idempotency_key "" ≡ false → (transition_case codec out env req db).1 ≡ db)
  transition_case-promised env req k db w fine parsed no_json fresh =
      let answer =
        transition-promised codec env (args_of codec out env req k) db w fresh
        ∙ kept-stored_as env req k _ no_json in
      (
        rw (transition_case-of env req k db fine parsed)
            (unfold transition_of in ap (transition_reply codec out) answer),
        (λ keyed. elim (transition_case-safe env req db) [
          | inr (failed, inr unchanged) ↦ unchanged
          | inr (failed, inl lost) ↦ absurd (cc (w.commits, lost))
          | inl (good, (j, row, at, ran, _, _, _)) ↦ absurd (
              stored_as-keyed req.idempotency_key _ row keyed (
                sym answer
                ∙ ap (λ i. (transition codec env (args_of codec out env req i) db).0)
                    (some-eq (sym parsed ∙ at))
                ∙ ran))
        ]),
      )
