-- ===== src/Agent/Cases/Lock.antt =====
-- If-Match in llm-ops-agent/api/handlers.go.
use x_scope_hub_svc_plus.Prelude.{
  ℕ, ◌<◌, ◌≡◌, ◌≢◌, refl, ap, sym, ◌∙◌, inl, inr, some, [], ◌∷◌, arith,
}
use x_scope_hub_svc_plus.Prelude.Text.{Text}
use x_scope_hub_svc_plus.CaseStore.Tables.{CaseRow, Db}
use x_scope_hub_svc_plus.CaseStore.Session.{ok}
use x_scope_hub_svc_plus.CaseStore.Repository.{Environment, Codec, transition}
use x_scope_hub_svc_plus.CaseStore.Versions.{transition-version_once}
use x_scope_hub_svc_plus.Agent.Numbers.{
  two_to_63, decimal, digits_from, parse_uint, parse_int, positive,
}
use x_scope_hub_svc_plus.Agent.Numbers.Roundtrip.{parse_int-decimal}
use x_scope_hub_svc_plus.Agent.Cases.{
  Outside, TransitionReq, version_asked, args_of, transition_case,
}
use x_scope_hub_svc_plus.Agent.Cases.Replies.{transition_case-safe, transition_case-store}

some-eq : {A : Type 0} {a b : A} → some a ≡ some b → a ≡ b
some-eq h = cc

version_asked-parse_int : (s : Text) → version_asked s ≡ parse_int s
unfolding version_asked parse_int
version_asked-parse_int [] = refl
version_asked-parse_int (c ∷ s) = refl

-- The version that a client sends back as it got it in an ETag is the version asked for.
pub version_asked-decimal : (v : ℕ) → v < two_to_63 → version_asked (decimal v) ≡ v
version_asked-decimal v bound = version_asked-parse_int (decimal v) ∙ parse_int-decimal v bound

-- An If-Match that begins with a quotation mark or a W, as HTTP writes an ETag, asks for no version.
pub version_asked-quoted : (s : Text) → (version_asked (34 ∷ s) ≡ 0) × (version_asked (87 ∷ s) ≡ 0)
unfolding version_asked parse_int parse_uint digits_from positive
version_asked-quoted s = (refl, refl)

module _ {Json Extras : Type 0} (codec : Codec Json Extras) (out : Outside Extras) where
  version_args :
      (env : Environment) (req : TransitionReq) (k : ℕ)
      → (args_of codec out env req k).if_match ≡ version_asked req.if_match
  unfolding args_of
  version_args env req k = refl

  key_args :
      (env : Environment) (req : TransitionReq) (k : ℕ)
      → (args_of codec out env req k).idem_key ≡ req.idempotency_key
  unfolding args_of
  key_args env req k = refl

  case_args :
      (env : Environment) (req : TransitionReq) (k : ℕ) → (args_of codec out env req k).case_id ≡ k
  unfolding args_of
  case_args env req k = refl

  -- Of two requests for one case without keys, whose If-Match is the same version as an ETag has it,
  -- at most one is answered with 200: after the first was, the second is not and changes nothing.
  pub transition_case-once :
      (env env' : Environment) (req req' : TransitionReq) (db : Db Json) (v : ℕ)
      → req.idempotency_key ≡ ""
      → req'.idempotency_key ≡ ""
      → req'.id ≡ req.id
      → req.if_match ≡ decimal v
      → req'.if_match ≡ decimal v
      → 0 < v
      → v < two_to_63
      → (transition_case codec out env req db).0.status ≡ 200
      → ((transition_case codec out env' req' (transition_case codec out env req db).1).0.status
          ≢ 200)
        × ((transition_case codec out env' req' (transition_case codec out env req db).1).1
            ≡ (transition_case codec out env req db).1)
  transition_case-once env env' req req' db v nokey nokey' same_id asked asked' pos bound first =
      elim (transition_case-safe codec out env req db) [
        | inr (bad, _) ↦ absurd (bad first)
        | inl (_, (k, row, parsed, ran, stored, _, _)) ↦ (
          (λ again.
              elim (transition_case-safe codec out env' req'
                (transition_case codec out env req db).1) [
                  | inr (bad, _) ↦ absurd (bad again)
                  | inl (_, (k', row', parsed', ran', _, _, _)) ↦
                      absurd ((blocked k k' row parsed parsed' ran).1 row' (rw stored at ran'))
                ]),
          elim (transition_case-store codec out env' req'
              (transition_case codec out env req db).1) [
                | inl same ↦ same
                | inr (k', parsed', stored') ↦
                    stored' ∙ (rw stored (blocked k k' row parsed parsed' ran).0)
              ],
        )
      ]
    where
      one_case :
          (k k' : ℕ) → out.uuid_parse req.id ≡ some k → out.uuid_parse req'.id ≡ some k' → k' ≡ k
      one_case k k' p p' = some-eq (sym p' ∙ ap out.uuid_parse same_id ∙ p)

      asks :
          (e : Environment) (r : TransitionReq) (k : ℕ)
          → r.if_match ≡ decimal v
          → (args_of codec out e r k).if_match ≡ v
      asks e r k a = version_args e r k ∙ ap version_asked a ∙ version_asked-decimal v bound

      blocked :
          (k k' : ℕ) (row : CaseRow)
          → out.uuid_parse req.id ≡ some k
          → out.uuid_parse req'.id ≡ some k'
          → (transition codec env (args_of codec out env req k) db).0 ≡ ok row
          → ((transition codec env'
                (args_of codec out env' req' k')
                (transition codec env (args_of codec out env req k) db).1).1
              ≡ (transition codec env (args_of codec out env req k) db).1)
            × ((row' : CaseRow)
                → (transition codec env'
                    (args_of codec out env' req' k')
                    (transition codec env (args_of codec out env req k) db).1).0
                  ≢ ok row')
      blocked k k' row p p' ran =
          transition-version_once codec env env' (args_of codec out env req k)
            (args_of codec out env' req' k') db row (key_args env req k ∙ nokey)
            (key_args env' req' k' ∙ nokey')
            (case_args env' req' k' ∙ one_case k k' p p' ∙ sym (case_args env req k))
            (asks env' req' k' asked' ∙ sym (asks env req k asked))
            (λ h. absurd (omega (arith, asks env req k asked))) ran
