-- ===== src/Gateway/Query/Handler/Guards.antt =====
-- Whom handleQuery of observe-gateway/internal/server/server.go answers with data.
use x_scope_hub_svc_plus.Prelude.{
  ℕ, ◌≡◌, refl, ap, sym, ◌∙◌, ◌⊎◌, inl, inr, Bool, true, false, Option, none, some, is_empty, arith,
  Bool-cases, Option-cases,
}
use x_scope_hub_svc_plus.Prelude.Text.{Text}
use x_scope_hub_svc_plus.Gateway.Query.{Request}
use x_scope_hub_svc_plus.Gateway.Query.Handler.{
  Verified, rejected, verified, HttpRequest, Config, Refusal, Admitted, refused, admitted, validate,
  checked, identified, prepared, admit,
}

-- What is known of a request that has passed the guards.
pub record IsAdmitted (is_duration : Text → Bool) (auth : Option (HttpRequest → Verified))
    (http : HttpRequest) (a : Admitted) : Type 0 where
  pub decoded : http.decode_error ≡ none
  pub query : is_empty a.request.query ≡ false
  pub step : (is_empty a.request.step ≡ true) ⊎ (is_duration a.request.step ≡ true)
  pub tenant : is_empty a.tenant ≡ false
  pub valid : validate a.request ≡ none
  -- with an authenticator, the tenant and the user are those that it verified
  pub token :
      (verify : HttpRequest → Verified)
      → auth ≡ some verify
      → verify http ≡ verified a.tenant a.user

Verified-cases :
    (v : Verified)
    → ((e : Text) × (v ≡ rejected e)) ⊎ ((t : Text) × (u : Text) × (v ≡ verified t u))
Verified-cases (rejected e) = inl (e, refl)
Verified-cases (verified t u) = inr (t, u, refl)

some-eq : {A : Type 0} {a b : A} → some a ≡ some b → a ≡ b
some-eq h = cc

-- The guards after the tenant is known.
checked-admitted :
    (tenant user : Text) (r : Request) (a : Admitted)
    → checked tenant user r ≡ admitted a
    → (a.request ≡ r)
      × (a.tenant ≡ tenant)
      × (a.user ≡ user)
      × (is_empty tenant ≡ false)
      × (validate r ≡ none)
unfolding checked
checked-admitted tenant user r a h = elim (Bool-cases (is_empty tenant)) [
  | inl missing ↦ absurd (ground arith)
  | inr named ↦ elim (Option-cases (validate r)) [
    | inr (e, invalid) ↦ absurd (ground arith)
    | inl valid ↦ ground arith
  ]
]

identified-admitted :
    (cfg : Config) (auth : Option (HttpRequest → Verified)) (http : HttpRequest) (r : Request)
    (a : Admitted)
    → identified cfg auth http r ≡ admitted a
    → (a.request ≡ r)
      × (is_empty a.tenant ≡ false)
      × (validate r ≡ none)
      × ((verify : HttpRequest → Verified)
          → auth ≡ some verify
          → verify http ≡ verified a.tenant a.user)
unfolding identified
identified-admitted cfg none http r a h =
    let (same, tenant, user, named, valid) = checked-admitted _ _ r a h in
    (same, rw tenant named, valid, λ verify e. absurd (ground arith))
identified-admitted cfg (some v) http r a h = elim (Verified-cases (v http)) [
  | inl (e, bad) ↦ absurd (ground arith)
  | inr (t, u, good) ↦
      let (same, tenant, user, named, valid) =
        checked-admitted t u r a (rw (good, identified) at h) in
      (
        same,
        rw tenant named,
        valid,
        λ verify e. rw (tenant, user) (ap (λ f. f http) (sym (some-eq e)) ∙ good),
      )
]

pub admit-IsAdmitted :
    (is_duration : Text → Bool) (cfg : Config) (auth : Option (HttpRequest → Verified))
    (http : HttpRequest) (a : Admitted)
    → admit is_duration cfg auth http ≡ admitted a
    → IsAdmitted is_duration auth http a
unfolding admit
admit-IsAdmitted is_duration cfg auth http a h = elim (Option-cases http.decode_error) [
  | inr (e, bad) ↦ absurd (ground arith)
  | inl decoded ↦ elim (Bool-cases (is_empty (prepared cfg http.body).query)) [
    | inl missing ↦ absurd (ground arith)
    | inr asked ↦ elim (step_cases (prepared cfg http.body).step) [
      | inr (given, bad) ↦ absurd (ground arith)
      | inl fine ↦
          let (same, named, valid, token) =
            identified-admitted cfg auth http (prepared cfg http.body) a (ground (arith, fine)) in
          record {
            decoded = decoded;
            query = rw same asked;
            step = rw same fine;
            tenant = named;
            valid = rw same valid;
            token = token;
          }
    ]
  ]
]
  where
    step_cases :
        (step : Text)
        → ((is_empty step ≡ true) ⊎ (is_duration step ≡ true))
          ⊎ ((is_empty step ≡ false) × (is_duration step ≡ false))
    step_cases step = ground arith

-- A refusal is answered with 400 or 401.
IsRefusal : ℕ → Type 0
IsRefusal status = (status ≡ 400) ⊎ (status ≡ 401)

checked-IsRefusal :
    (tenant user : Text) (r : Request) (d : Refusal)
    → checked tenant user r ≡ refused d
    → IsRefusal d.status
unfolding checked IsRefusal
checked-IsRefusal tenant user r d h = elim (Bool-cases (is_empty tenant)) [
  | inl missing ↦ ground arith
  | inr named ↦ elim (Option-cases (validate r)) [
    | inr (e, invalid) ↦ ground arith
    | inl valid ↦ absurd (ground arith)
  ]
]

identified-IsRefusal :
    (cfg : Config) (auth : Option (HttpRequest → Verified)) (http : HttpRequest) (r : Request)
    (d : Refusal)
    → identified cfg auth http r ≡ refused d
    → IsRefusal d.status
unfolding identified IsRefusal
identified-IsRefusal cfg none http r d h = unfold IsRefusal in checked-IsRefusal _ _ r d h
identified-IsRefusal cfg (some v) http r d h = elim (Verified-cases (v http)) [
  | inl (e, bad) ↦ ground arith
  | inr (t, u, good) ↦ checked-IsRefusal t u r d (rw (good, identified) at h)
]

pub admit-IsRefusal :
    (is_duration : Text → Bool) (cfg : Config) (auth : Option (HttpRequest → Verified))
    (http : HttpRequest) (d : Refusal)
    → admit is_duration cfg auth http ≡ refused d
    → (d.status ≡ 400) ⊎ (d.status ≡ 401)
unfolding admit IsRefusal
admit-IsRefusal is_duration cfg auth http d h =
    let later = identified-IsRefusal cfg auth http (prepared cfg http.body) d in
    ground (arith, later)
