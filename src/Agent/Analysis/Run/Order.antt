-- ===== src/Agent/Analysis/Run/Order.antt =====
-- The order in which the results of the five queries arrive
-- (llm-ops-agent/internal/analysis/service.go, collectEvidence and Run).
use mathlib.Core.List.{Permᴰ}
use mathlib.Core.List.Permᴰ
use mathlib.Core.Path.{subst}
use x_scope_hub_svc_plus.Prelude.{
  ℕ, suc, ◌≡◌, refl, ap, ◌∙◌, true, false, Option, none, some, List, [], ◌∷◌, ◌++◌, length,
  is_empty, arith, Bool-cases, ◌⊎◌, inl, inr,
}
use x_scope_hub_svc_plus.Prelude.Text.{Text, codes}
use x_scope_hub_svc_plus.Agent.Analysis.{
  Request, Response, Evidence, EvidenceSet, HealthSummary, ReasonerInput, Diagnosis,
}
use x_scope_hub_svc_plus.Agent.Analysis.Health.{summarize_health, heuristic_diagnosis}
use x_scope_hub_svc_plus.Agent.Analysis.Normalize.{normalize_request, is_blank}
use x_scope_hub_svc_plus.Agent.Analysis.Gateway.{Outcome, got, failed, HttpPost, Sent}
use x_scope_hub_svc_plus.Agent.Analysis.Collect.{
  Source, Arrival, Collected, settled, with_error, put, collect, query_template, collect_evidence,
  nothing,
}
use x_scope_hub_svc_plus.Agent.Analysis.Run.{Service, verdict, diagnose, answer, respond, run}

put-put :
    (e : Source → Evidence) (a b : Source) (es : EvidenceSet)
    → put b (e b) (put a (e a) es) ≡ put a (e a) (put b (e b) es)
unfolding put
put-put e a b es = ground arith

length-Perm : {A : Type 0} {l m : List A} → Permᴰ l m → length l ≡ length m
length-Perm Permᴰ.nil = refl
length-Perm (Permᴰ.cons e d) = ap suc (length-Perm d)
length-Perm (Permᴰ.swap e f) = refl
length-Perm (Permᴰ.trans d e) = length-Perm d ∙ length-Perm e

with_error-Perm :
    (s : Source) (o : Option Text) (l m : List Text)
    → Permᴰ l m
    → Permᴰ (with_error s o l) (with_error s o m)
unfolding with_error
with_error-Perm s none l m p = p
with_error-Perm s (some e) l m p = Permᴰ.append_right _ p

last_two :
    {A : Type 0} (x y : A) (l : List A) → Permᴰ ((l ++ x ∷ []) ++ y ∷ []) ((l ++ y ∷ []) ++ x ∷ [])
last_two x y [] = Permᴰ.swap refl refl
last_two x y (z ∷ l) = Permᴰ.cons refl (last_two x y l)

with_error-swap :
    (s t : Source) (o p : Option Text) (l : List Text)
    → Permᴰ (with_error t p (with_error s o l)) (with_error s o (with_error t p l))
unfolding with_error
with_error-swap s t none none l = Permᴰ.refl l
with_error-swap s t none (some e) l = Permᴰ.refl _
with_error-swap s t (some e) none l = Permᴰ.refl _
with_error-swap s t (some e) (some f) l = last_two _ _ l

-- The same evidence, and the same errors in some order.
pub record IsSame (c d : Collected) : Type 0 where
  pub evidence : c.evidence ≡ d.evidence
  pub errs : Permᴰ c.errs d.errs

module _ (arrive : Source → Arrival) where
  -- One turn of the loop.
  abbrev next : Source → Collected → Collected
  next s c = record {
    evidence = put s (settled (arrive s)) c.evidence;
    errs = with_error s (arrive s).err c.errs;
  }

  next-IsSame : (s : Source) (c d : Collected) → IsSame c d → IsSame (next s c) (next s d)
  next-IsSame s c d h = record {
    evidence = ap (put s (settled (arrive s))) h.evidence;
    errs = with_error-Perm s (arrive s).err _ _ h.errs;
  }

  IsSame-trans : (c d e : Collected) → IsSame c d → IsSame d e → IsSame c e
  IsSame-trans c d e h k = record {
    evidence = h.evidence ∙ k.evidence;
    errs = Permᴰ.trans h.errs k.errs;
  }

  IsSame-refl : (c : Collected) → IsSame c c
  IsSame-refl c = record { evidence = refl; errs = Permᴰ.refl c.errs }

  next-next : (s t : Source) (c : Collected) → IsSame (next t (next s c)) (next s (next t c))
  next-next s t c = record {
    evidence = put-put (λ x. settled (arrive x)) s t c.evidence;
    errs = with_error-swap s t _ _ c.errs;
  }

  collect-start :
      (order : List Source) (c d : Collected)
      → IsSame c d
      → IsSame (collect arrive order c) (collect arrive order d)
  unfolding collect
  collect-start [] c d h = h
  collect-start (s ∷ order) c d h = collect-start order _ _ (next-IsSame s c d h)

  pub collect-IsSame :
      (order other : List Source) (c : Collected)
      → Permᴰ order other
      → IsSame (collect arrive order c) (collect arrive other c)
  unfolding collect
  collect-IsSame order other c Permᴰ.nil = IsSame-refl c
  collect-IsSame (s ∷ order) (t ∷ other) c (Permᴰ.cons e p) =
      subst (λ u. IsSame (collect arrive order (next s c)) (collect arrive other (next u c))) e
        (collect-IsSame order other (next s c) p)
  collect-IsSame (s ∷ t ∷ rest) (t' ∷ s' ∷ other) c (Permᴰ.swap e f) =
      subst
        (λ u.
          IsSame (collect arrive rest (next t (next s c)))
            (collect arrive rest (next u (next t' c))))
        e
        (subst
          (λ u.
            IsSame (collect arrive rest (next t (next s c)))
              (collect arrive rest (next s (next u c))))
          f (collect-start rest _ _ (next-next s t c)))
  collect-IsSame order other c (Permᴰ.trans {l₂ = middle} p q) =
      IsSame-trans _ _ _ (collect-IsSame order middle c p) (collect-IsSame middle other c q)

-- Two answers that differ in the order of their errors only.
pub record IsAlike {Float : Type 0} (r q : Response Float) : Type 0 where
  pub goal : r.goal ≡ q.goal
  pub tenant : r.tenant ≡ q.tenant
  pub service : r.service ≡ q.service
  pub time_window : r.time_window ≡ q.time_window
  pub health : r.health ≡ q.health
  pub evidence : r.evidence ≡ q.evidence
  pub diagnosis : r.diagnosis ≡ q.diagnosis
  pub status : r.meta.reasoner_status ≡ q.meta.reasoner_status
  pub errors : Permᴰ r.meta.errors q.meta.errors

module _ {Float : Type 0} (s : Service Float) where
  is_empty-length : {A : Type 0} (l m : List A) → length l ≡ length m → is_empty l ≡ is_empty m
  is_empty-length [] [] h = refl
  is_empty-length [] (x ∷ m) h = absurd (ground arith)
  is_empty-length (x ∷ l) [] h = absurd (ground arith)
  is_empty-length (x ∷ l) (y ∷ m) h = refl

  summarize_health-length :
      (es : EvidenceSet) (l m : List Text)
      → length l ≡ length m
      → summarize_health es l ≡ summarize_health es m
  unfolding summarize_health
  summarize_health-length es l m h = rw h

  heuristic_diagnosis-length :
      (req : Request) (health : HealthSummary) (es : EvidenceSet) (l m : List Text)
      → length l ≡ length m
      → heuristic_diagnosis s.confidence req health es l
        ≡ heuristic_diagnosis s.confidence req health es m
  unfolding heuristic_diagnosis
  heuristic_diagnosis-length req health es l m h = rw (is_empty-length l m h)

  verdict-alike :
      (answer : Option (Outcome (Diagnosis Float))) (d e : Diagnosis Float) (l m : List Text)
      → d ≡ e
      → Permᴰ l m
      → ((verdict answer d l).diagnosis ≡ (verdict answer e m).diagnosis)
        × ((verdict answer d l).status ≡ (verdict answer e m).status)
        × Permᴰ (verdict answer d l).errs (verdict answer e m).errs
  unfolding verdict
  verdict-alike none d e l m h p = (h, refl, p)
  verdict-alike (some (got f)) d e l m h p = (refl, refl, p)
  verdict-alike (some (failed f)) d e l m h p = (h, refl, Permᴰ.append_right _ p)

  diagnose-alike :
      (input : ReasonerInput) (l m : List Text)
      → Permᴰ l m
      → ((diagnose s input l).diagnosis ≡ (diagnose s input m).diagnosis)
        × ((diagnose s input l).status ≡ (diagnose s input m).status)
        × Permᴰ (diagnose s input l).errs (diagnose s input m).errs
  unfolding diagnose
  diagnose-alike input l m p =
      verdict-alike _ _ _ l m
        (heuristic_diagnosis-length input.request input.health input.evidence l m (length-Perm p)) p

  answer-IsAlike :
      (input : ReasonerInput) (l m : List Text)
      → Permᴰ l m
      → IsAlike (answer s input l) (answer s input m)
  unfolding answer
  answer-IsAlike input l m p =
      let (diagnoses, statuses, errors) = diagnose-alike input l m p in
      record {
        goal = refl;
        tenant = refl;
        service = refl;
        time_window = refl;
        health = refl;
        evidence = refl;
        diagnosis = diagnoses;
        status = statuses;
        errors = errors;
      }

  respond-IsAlike :
      (req : Request) (c d : Collected) → IsSame c d → IsAlike (respond s req c) (respond s req d)
  unfolding respond
  respond-IsAlike req c d h =
      let input : HealthSummary → EvidenceSet → ReasonerInput =
        λ health es. record { request = req; health = health; evidence = es } in
      subst
        (λ es. IsAlike (respond s req c) (answer s (input (summarize_health es d.errs) es) d.errs))
        h.evidence
        (subst (λ health. IsAlike (respond s req c) (answer s (input health c.evidence) d.errs))
          (summarize_health-length c.evidence c.errs d.errs (length-Perm h.errs))
          (answer-IsAlike (input (summarize_health c.evidence c.errs) c.evidence) c.errs d.errs
            h.errs))

  run-unnamed :
      (now : ℕ) (send : HttpPost → Sent) (order : List Source) (request : Request)
      → is_blank (normalize_request s.clock s.defaults now request).service ≡ true
      → run s now send order request ≡ failed (codes "service is required")
  unfolding run
  run-unnamed now send order request h = rw h

  run-named :
      (now : ℕ) (send : HttpPost → Sent) (order : List Source) (request : Request)
      → is_blank (normalize_request s.clock s.defaults now request).service ≡ false
      → run s now send order request
        ≡ got (
            respond s (normalize_request s.clock s.defaults now request) (
              collect_evidence s.wire send s.gateway
                (normalize_request s.clock s.defaults now request)
                order))
  unfolding run
  run-named now send order request h = rw h

  -- The order in which the five results arrive changes nothing but the order of the errors: for two
  -- orders of the same sources a run fails with the same error, or gives the same goal, tenant,
  -- service, times, health, evidence, diagnosis and status, and the same errors in some order.
  pub run-order :
      (now : ℕ) (send : HttpPost → Sent) (order other : List Source) (request : Request)
      → Permᴰ order other
      → ((e : Text) × (run s now send order request ≡ failed e)
          × (run s now send other request ≡ failed e))
        ⊎ ((r : Response Float) × (q : Response Float) × (run s now send order request ≡ got r)
            × (run s now send other request ≡ got q)
            × IsAlike r q)
  unfolding collect_evidence
  run-order now send order other request p =
      let req = normalize_request s.clock s.defaults now request in
      elim (Bool-cases (is_blank req.service)) [
        | inl blank ↦
            inl (
              _,
              run-unnamed now send order request blank,
              run-unnamed now send other request blank,
            )
        | inr named ↦ inr (
          _,
          _,
          run-named now send order request named,
          run-named now send other request named,
          respond-IsAlike req _ _
              (collect-IsSame (query_template s.wire send s.gateway req) order other nothing p),
        )
      ]
