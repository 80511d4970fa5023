-- ===== src/Gateway/Query/Handler/Tenants.antt =====
-- The data that handleQuery of observe-gateway/internal/server/server.go answers with is the tenant's
-- own, from the cache too.
use mathlib.Core.Path.{subst}
use x_scope_hub_svc_plus.Prelude.{
  ℕ, ◌≡◌, refl, ap, sym, ◌∙◌, ◌⊎◌, inl, inr, Bool, true, false, Option, none, some, List, [], ◌∷◌,
  is_empty, All, All-append, arith, Bool-cases, if◌then◌else◌,
}
use x_scope_hub_svc_plus.Prelude.Text.{Text, codes, text_eq}
use x_scope_hub_svc_plus.Gateway.Query.{Request, Cache, find, get, set}
use x_scope_hub_svc_plus.Gateway.Query.Key.{time_part, extras, build_cache_key}
use x_scope_hub_svc_plus.Gateway.Query.Owner.{HasNoBar, IsMarked, IsName, build_cache_key-tenant}
use x_scope_hub_svc_plus.Gateway.Query.Handler.{
  Result, Library, HttpRequest, Moment, error_body, payload_body, Admitted, admitted, admit, Server,
  response_to, handle_query,
}
use x_scope_hub_svc_plus.Gateway.Query.Handler.Isolation.{IsAnswered, handle_query_cases}

pub text_eq-true : (s t : Text) → text_eq s t ≡ true → s ≡ t
unfolding text_eq
text_eq-true [] [] h = refl
text_eq-true [] (d ∷ t) h = absurd (ground arith)
text_eq-true (c ∷ s) [] h = absurd (ground arith)
text_eq-true (c ∷ s) (d ∷ t) h = ground (arith, text_eq-true s t)

find-All :
    {P : Type 0} (Q : Text × P → Type 0) (key : Text) (v : P) (store : List (Text × P))
    → All Q store
    → find key store ≡ some v
    → Q (key, v)
unfolding find
find-All Q key v [] h e = absurd (ground arith)
find-All Q key v ((k, w) ∷ store) h e = elim (Bool-cases (text_eq k key)) [
  | inl here ↦
      let same : w ≡ v = cc (rw here at e) in
      subst Q (ap (λ x. (x, w)) (text_eq-true k key here) ∙ ap (λ x. (key, x)) same) h.0
  | inr further ↦ find-All Q key v store h.1 (rw further at e)
]

-- How the parts of a key that it has only sometimes are told from a tenant's name.
pub record Marking (lib : Library) : Type 0 where
  pub is_extra : Text → Bool
  pub times : (t : ℕ) → (is_extra (lib.format_time t) ≡ true) × HasNoBar (lib.format_time t)
  pub durations : (s : Text) → lib.is_duration s ≡ true → (is_extra s ≡ true) × HasNoBar s
  pub flag : is_extra (codes "normalize=true") ≡ true

module _ (lib : Library) (k : Marking lib) where
  open lib use {Payload, format_time, is_duration, marshal}

  IsExtra : Text → Type 0
  IsExtra s = (k.is_extra s ≡ true) × HasNoBar s

  time_part-IsExtra : (t : Option ℕ) → All IsExtra (time_part format_time t)
  unfolding time_part IsExtra
  time_part-IsExtra none = tt
  time_part-IsExtra (some t) = (k.times t, tt)

  step-IsExtra :
      (s : Text)
      → (is_empty s ≡ true) ⊎ (is_duration s ≡ true)
      → All IsExtra (if is_empty s then [] else s ∷ [])
  unfolding IsExtra
  step-IsExtra [] fine = tt
  step-IsExtra (c ∷ s) (inl empty) = absurd (ground arith)
  step-IsExtra (c ∷ s) (inr duration) = (k.durations (c ∷ s) duration, tt)

  flag-IsExtra : (b : Bool) → All IsExtra (if b then codes "normalize=true" ∷ [] else [])
  unfolding IsExtra
  flag-IsExtra true = ((k.flag, omega arith), tt)
  flag-IsExtra false = tt

  split_marks :
      (xs : List Text) → All IsExtra xs → All (λ x. k.is_extra x ≡ true) xs × All HasNoBar xs
  unfolding IsExtra
  split_marks [] h = (tt, tt)
  split_marks (x ∷ xs) ((e, b), h) = let (es, bs) = split_marks xs h in ((e, es), (b, bs))

  admitted-IsMarked :
      (r : Request)
      → (is_empty r.step ≡ true) ⊎ (is_duration r.step ≡ true)
      → IsMarked format_time k.is_extra r
  unfolding extras
  admitted-IsMarked r fine =
      let (marked, plain) = split_marks (extras format_time r) (
        All-append IsExtra _ _
          (All-append IsExtra _ _
            (All-append IsExtra _ _ (time_part-IsExtra r.start) (time_part-IsExtra r.end))
            (step-IsExtra r.step fine))
          (flag-IsExtra r.normalize)) in
      record { marked = marked; plain = plain }

  -- A cache entry that was made for a tenant: its key is the key of a request of the tenant, and its
  -- payload a response to the tenant.
  pub record IsOwn (entry : Text × Payload) : Type 0 where
    pub a : Admitted
    pub duration : ℕ
    pub res : Result Payload
    pub key : entry.0 ≡ build_cache_key format_time a.request a.tenant
    pub payload : marshal (response_to lib duration a res) ≡ some entry.1
    pub is_marked : IsMarked format_time k.is_extra a.request
    pub is_name : IsName format_time k.is_extra a.tenant

  set-IsOwn :
      (accepts : Bool) (key : Text) (p : Payload) (c : Cache Payload)
      → All IsOwn c.store
      → IsOwn (key, p)
      → All IsOwn (set accepts key p c).store
  unfolding set
  set-IsOwn accepts key p c h e = ground arith

  get-IsOwn :
      (held : Bool) (key : Text) (p : Payload) (c : Cache Payload)
      → All IsOwn c.store
      → get held key c ≡ some p
      → IsOwn (key, p)
  unfolding get
  get-IsOwn held key p c h e = find-All IsOwn key p c.store h (ground arith)

  -- A payload that is a response to the tenant.
  abbrev pub IsFor : Text → Payload → Type 0
  IsFor tenant p =
      (a : Admitted) × (duration : ℕ) × (res : Result Payload) × (a.tenant ≡ tenant)
      × (marshal (response_to lib duration a res) ≡ some p)

  differ : {e : Text} {p : Payload} → error_body e ≡ payload_body p → ⊥
  differ h = absurd (cc h)

  payload_eq : {p q : Payload} → payload_body p ≡ payload_body q → p ≡ q
  payload_eq h = cc

  answered-IsOwn :
      (m : Moment) (http : HttpRequest) (s : Server lib) (q : Payload)
      → (ans : IsAnswered lib m http s (handle_query lib m http s) q) → All IsOwn s.cache.store
      → IsName format_time k.is_extra ans.a.tenant
      → All IsOwn (handle_query lib m http s).1.cache.store × IsFor ans.a.tenant q
  answered-IsOwn m http s q ans own name =
      let marked = admitted-IsMarked ans.a.request ans.guards.step in
      elim ans.served.source [
        | inl (found, same) ↦
            let o = get-IsOwn m.held _ q s.cache own found in
            (
              rw same own,
              (
                o.a,
                o.duration,
                o.res,
                build_cache_key-tenant format_time k.is_extra o.a.request ans.a.request o.a.tenant
                    ans.a.tenant o.is_marked marked o.is_name name (sym o.key),
                o.payload,
              ),
            )
        | inr (res, given, written, stored) ↦ (
          rw stored (
              set-IsOwn m.accepts _ q s.cache own (record {
                a = ans.a;
                duration = m.duration;
                res = res;
                key = refl;
                payload = written;
                is_marked = marked;
                is_name = name;
              })),
          (ans.a, m.duration, res, refl, written),
        )
      ]

  -- An answer with data is a response to the tenant that was admitted, also when it comes from the
  -- cache, and the entries of the cache stay each of one tenant, where they were so before:
  -- where the name of the tenant that is admitted holds no bar `|`, the separator of a key, and does
  -- not look like a time, a duration or the flag in a key.
  pub handle_query-IsFor :
      (m : Moment) (http : HttpRequest) (s : Server lib)
      → All IsOwn s.cache.store
      → ((a : Admitted)
          → admit is_duration s.cfg s.auth http ≡ admitted a
          → IsName format_time k.is_extra a.tenant)
      → All IsOwn (handle_query lib m http s).1.cache.store
        × ((p : Payload)
            → (handle_query lib m http s).0.body ≡ payload_body p
            → (a : Admitted) × (admit is_duration s.cfg s.auth http ≡ admitted a)
              × IsFor a.tenant p)
  handle_query-IsFor m http s own names = elim (handle_query_cases lib m http s) [
    | inl ((e, is_error), same) ↦ (rw same own, λ p h. absurd (differ (sym is_error ∙ h)))
    | inr (q, ans) ↦
        let o = answered-IsOwn m http s q ans own (names ans.a ans.passed) in
        (
          o.0,
          λ p h. (
            ans.a,
            ans.passed,
            subst (IsFor ans.a.tenant) (payload_eq (sym ans.served.is_body ∙ h)) o.1,
          ),
        )
  ]
