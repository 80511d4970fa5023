-- ===== src/Gateway/Query/Handler/Log.antt =====
-- The audit log of handleQuery of observe-gateway/internal/server/server.go.
use x_scope_hub_svc_plus.Prelude.{
  ℕ, ◌≡◌, refl, sym, ◌∙◌, ◌≢◌, ◌⊎◌, inl, inr, Bool, true, false, Option, none, some, List, [],
  arith, Option-cases,
}
use x_scope_hub_svc_plus.Prelude.Text.{Text, codes}
use x_scope_hub_svc_plus.Gateway.Query.{Entry, log, get}
use x_scope_hub_svc_plus.Gateway.Query.Key.{build_cache_key}
use x_scope_hub_svc_plus.Gateway.Query.Handler.{
  Library, HttpRequest, Moment, HttpResponse, Refusal, Admitted, admitted, refused, admit, dispatch,
  Server, response_to, deny, entry_of, serve, limited, handle_query, refusal_entry,
}
use x_scope_hub_svc_plus.Gateway.Query.Handler.Guards.{admit-IsRefusal}
use x_scope_hub_svc_plus.Gateway.Query.Handler.Isolation.{
  Answer-cases, Admission-cases, Verdict-cases,
}

module _ (lib : Library) where
  open lib use {Payload, Limits, allow, format_time, is_duration, marshal, unmarshal}

  -- The answer and its one entry in the log agree: the entry has the tenant and the time taken, and
  -- that of an answer with status 200 has no error.
  pub record IsLogged (m : Moment) (tenant : Text) (audit : Bool) (entries : List Entry)
      (answer : HttpResponse Payload × Server lib) : Type 0 where
    pub entry : Entry
    pub logged : answer.1.entries ≡ log audit entry entries
    pub by_tenant : entry.tenant ≡ tenant
    pub took : entry.duration ≡ m.duration
    pub fine : answer.0.status ≡ 200 → entry.error ≡ []

  deny-IsLogged :
      (m : Moment) (status : ℕ) (message : Text) (entry : Entry) (s : Server lib)
      → status ≢ 200
      → entry.duration ≡ m.duration
      → IsLogged m entry.tenant s.cfg.audit s.entries (deny lib status message entry s)
  unfolding deny
  deny-IsLogged m status message entry s bad took = record {
    entry = entry;
    logged = refl;
    by_tenant = refl;
    took = took;
    fine = λ h. absurd (bad h);
  }

  -- A denial with an entry for an admitted request.
  denied :
      (m : Moment) (a : Admitted) (s : Server lib) (status : ℕ) (message backend error : Text)
      (answer : HttpResponse Payload × Server lib)
      → status ≢ 200
      → answer ≡ deny lib status message (entry_of lib m.duration a 0 false backend error) s
      → IsLogged m a.tenant s.cfg.audit s.entries answer
  unfolding entry_of
  denied m a s status message backend error answer bad same =
      rw same (
        deny-IsLogged m status message (entry_of lib m.duration a 0 false backend error) s bad refl)

  answered :
      (m : Moment) (a : Admitted) (s : Server lib) (cost : ℕ) (cached : Bool) (backend : Text)
      (answer : HttpResponse Payload × Server lib)
      → answer.1.entries
        ≡ log s.cfg.audit (entry_of lib m.duration a cost cached backend []) s.entries
      → IsLogged m a.tenant s.cfg.audit s.entries answer
  unfolding entry_of
  answered m a s cost cached backend answer same = record {
    entry = entry_of lib m.duration a cost cached backend [];
    logged = same;
    by_tenant = refl;
    took = refl;
    fine = λ h. refl;
  }

  serve-IsLogged :
      (m : Moment) (a : Admitted) (s : Server lib)
      → IsLogged m a.tenant s.cfg.audit s.entries (serve lib m a s)
  unfolding serve
  serve-IsLogged m a s =
      elim (Option-cases (get m.held (build_cache_key format_time a.request a.tenant) s.cache)) [
        | inr (p, hit) ↦ elim (Option-cases (unmarshal p)) [
          | inl garbled ↦ answered m a s 0 true (codes "cache") _ (ground arith)
          | inr ((backend, cost), read) ↦ answered m a s cost true backend _ (ground arith)
        ]
        | inl miss ↦ elim (Answer-cases (dispatch s.backend a.tenant a.request)) [
          | inr (inl (e, bad)) ↦ denied m a s 400 e [] e _ (omega arith) (ground arith)
          | inr (inr (e, bad)) ↦ denied m a s 502 e [] e _ (omega arith) (ground arith)
          | inl (res, good) ↦ elim (Option-cases (marshal (response_to lib m.duration a res))) [
            | inl bad ↦
                denied m a s 500 (codes "marshal response failed") res.backend lib.marshal_failure _
                  (omega arith) (ground arith)
            | inr (p, written) ↦ answered m a s res.cost false res.backend _ (ground arith)
          ]
        ]
      ]

  limited-IsLogged :
      (m : Moment) (a : Admitted) (o : Option Limits) (s : Server lib)
      → IsLogged m a.tenant s.cfg.audit s.entries (limited lib m a o s)
  unfolding limited
  limited-IsLogged m a none s = serve-IsLogged m a s
  limited-IsLogged m a (some l) s =
      let s' = record s { limiter = some (allow m.now a.tenant l).1 } in
      elim (Verdict-cases (allow m.now a.tenant l).0) [
        | inl passes ↦
            let same : limited lib m a (some l) s
                ≡ serve lib m a (record s { limiter = some (allow m.now a.tenant l).1 }) =
              rw (passes, limited) in
            rw same (serve-IsLogged m a (record s { limiter = some (allow m.now a.tenant l).1 }))
        | inr (inl slow) ↦
            denied m a (record s { limiter = some (allow m.now a.tenant l).1 }) 429
              (codes "rate limit exceeded") [] (codes "rate limit exceeded") _ (omega arith)
              (ground arith)
        | inr (inr down) ↦
            denied m a (record s { limiter = some (allow m.now a.tenant l).1 }) 500
              lib.limiter_failure [] lib.limiter_failure _ (omega arith) (ground arith)
      ]

  refused-IsLogged :
      (m : Moment) (s : Server lib) (status : ℕ) (message : Text) (entry : Entry)
      (answer : HttpResponse Payload × Server lib)
      → (status ≡ 400) ⊎ (status ≡ 401)
      → entry.duration ≡ m.duration
      → answer ≡ deny lib status message entry s
      → IsLogged m entry.tenant s.cfg.audit s.entries answer
  refused-IsLogged m s status message entry answer bad took same =
      rw same (deny-IsLogged m status message entry s (λ h. absurd (omega (arith, bad))) took)

  -- With the audit log on, every request adds just one entry to it, and with the log off none; the
  -- entry has the time that the request took and the tenant that was admitted, if one was, and where
  -- the answer has status 200 it has no error.
  pub handle_query-IsLogged :
      (m : Moment) (http : HttpRequest) (s : Server lib)
      → (tenant : Text) × (((a : Admitted)
            → admit is_duration s.cfg s.auth http ≡ admitted a
            → tenant ≡ a.tenant)
          × IsLogged m tenant s.cfg.audit s.entries (handle_query lib m http s))
  unfolding handle_query
  handle_query-IsLogged m http s = elim (Admission-cases (admit is_duration s.cfg s.auth http)) [
    | inr (a, good) ↦
        let same : handle_query lib m http s ≡ limited lib m a s.limiter s =
          rw (good, handle_query) in
        (
          a.tenant,
          ((λ b h. same_tenant (sym good ∙ h)), rw same (limited-IsLogged m a s.limiter s)),
        )
    | inl (d, bad) ↦ (
      d.tenant,
      (
        (λ b h. absurd (differ (sym bad ∙ h))),
        refused-IsLogged m s d.status d.message (refusal_entry m d) (handle_query lib m http s)
            (admit-IsRefusal is_duration s.cfg s.auth http d bad) refl (ground arith),
      ),
    )
  ]
    where
      same_tenant : {a b : Admitted} → admitted a ≡ admitted b → a.tenant ≡ b.tenant
      same_tenant h = cc

      differ : {b : Admitted} {d : Refusal} → refused d ≡ admitted b → ⊥
      differ h = absurd (cc h)
