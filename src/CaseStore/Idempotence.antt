-- ===== src/CaseStore/Idempotence.antt =====
-- A key is used once: what a second call with the same idempotency key does
-- (llm-ops-agent/internal/ports/postgres/case_repo.go).
use x_scope_hub_svc_plus.Prelude.{
  ◌≡◌, inl, inr, String, true, false, some, List, [], ◌∷◌, str_eq, str_eq_iff, str_eq_refl, arith,
}
use x_scope_hub_svc_plus.CaseStore.Tables.{CaseRow, Idempotency, Db, find_key}
use x_scope_hub_svc_plus.CaseStore.Session.{Tx, ok, get_idempotency}
use x_scope_hub_svc_plus.CaseStore.Repository.{
  TransitionArgs, Environment, Codec, once, transition_tx, transition,
}
use x_scope_hub_svc_plus.CaseStore.Atomicity.{
  key_row, once_cases, transition_tx-IsApplied, transition_ok,
}

find_key-key :
    {Json : Type 0} (k : String) (rs : List (Idempotency Json)) (r : Idempotency Json)
    → find_key k rs ≡ some r
    → str_eq r.idem_key k ≡ true
unfolding find_key
find_key-key k [] r h = absurd (ground arith)
find_key-key k (x ∷ xs) r h = ground (arith, find_key-key k xs r)

once-known :
    {Json A : Type 0} (decode : Json → A) (env : Environment) (k : String) (m : Tx Json A)
    (db : Db Json) (r : Idempotency Json)
    → str_eq k "" ≡ false
    → env.lookup_fails ≡ false
    → find_key k db.idempotency ≡ some r
    → once decode env k m db ≡ (ok (decode r.response), db)
unfolding once get_idempotency
once-known decode env k m db r given reads known =
    ground (arith, find_key-key k db.idempotency r, str_eq_iff r.idem_key k)

module _ {Json Extras : Type 0} (codec : Codec Json Extras) where
  -- A transition under a key that is already stored changes nothing, also when the look-up of the
  -- key fails and the code goes on as if the key were new.
  pub transition-used_key :
      (env : Environment) (args : TransitionArgs Json Extras) (db : Db Json) (r : Idempotency Json)
      → str_eq args.idem_key "" ≡ false
      → find_key args.idem_key db.idempotency ≡ some r
      → (transition codec env args db).1 ≡ db
  unfolding transition
  transition-used_key env args db r given used =
      elim (once_cases codec.json_row env args.idem_key (transition_tx codec env args) db) [
        | inl same ↦ same
        | inr (row, ran, clean, wrote) ↦ absurd (
            ground (
              arith,
              (transition_tx-IsApplied codec env args db row ran).keys,
              str_eq_iff args.idem_key "",
            ))
      ]

  known_answer :
      (env : Environment) (args : TransitionArgs Json Extras) (db : Db Json) (r : Idempotency Json)
      (row : CaseRow)
      → str_eq args.idem_key "" ≡ false
      → env.lookup_fails ≡ false
      → find_key args.idem_key db.idempotency ≡ some r
      → codec.json_row r.response ≡ row
      → transition codec env args db ≡ (ok row, db)
  unfolding transition
  known_answer env args db r row given reads known decoded = rw (← decoded) (
      once-known codec.json_row env args.idem_key (transition_tx codec env args) db r given reads
        known)

  find_key-cons :
      (r : Idempotency Json) (rs : List (Idempotency Json)) → find_key r.idem_key (r ∷ rs) ≡ some r
  unfolding find_key
  find_key-cons r rs = rw str_eq_refl

  -- A transition that succeeded under a key is answered again, with the same row and no further
  -- change, by every later call under that key that finds it, whatever else that call asks for. The
  -- row must survive its encoding.
  pub transition_replay :
      (env env' : Environment) (args args' : TransitionArgs Json Extras) (db : Db Json)
      (row : CaseRow)
      → ((c : CaseRow) → codec.json_row (codec.row_json c) ≡ c)
      → str_eq args.idem_key "" ≡ false
      → args'.idem_key ≡ args.idem_key
      → env'.lookup_fails ≡ false
      → (transition codec env args db).0 ≡ ok row
      → transition codec env' args' (transition codec env args db).1
        ≡ (ok row, (transition codec env args db).1)
  transition_replay env env' args args' db row decodes given same reads h =
      elim (transition_ok codec env args db row h) [
        | inl (r, _, known, decoded, unchanged) ↦
            known_answer env' args' _ r row (rw same given) reads (rw (unchanged, same) known)
              decoded
        | inr a ↦ elim a.keys [
          | inl (none_given, _) ↦ absurd (ground (arith, str_eq_iff args.idem_key ""))
          | inr (_, stored) ↦
              known_answer env' args' _ (key_row codec env args row) row (rw same given) reads
                (rw (stored, same) (find_key-cons _ _)) (decodes row)
        ]
      ]
