-- ===== src/Gateway/Auth/Tenant.antt =====
-- Whose request it is (Verify of observe-gateway/internal/auth/authenticator.go).
use x_scope_hub_svc_plus.Prelude.{ℕ, ◌≡◌, refl, ◌⊎◌, inl, inr, true, arith}
use x_scope_hub_svc_plus.Prelude.Text.{Text, codes}
use x_scope_hub_svc_plus.Gateway.Query.Handler.{verified}
use x_scope_hub_svc_plus.Gateway.Auth.{
  Outcome, got, broken, JwtLib, Authenticator, audiences, or_else, claim_as_string, get_key_set,
  named, bearer, verify,
}

Outcome-cases :
    {A : Type 0} (o : Outcome A) → ((a : A) × (o ≡ got a)) ⊎ ((e : Text) × (o ≡ broken e))
Outcome-cases (got a) = inl (a, refl)
Outcome-cases (broken e) = inr (e, refl)

module _ (lib : JwtLib) where
  open lib use {KeySet, Token, parse}

  -- The token that a request was verified by.
  pub record IsSigned (now : ℕ) (fetched : Outcome KeySet) (header : Text → Text)
      (a : Authenticator lib) (tenant user : Text) : Type 0 where
    pub text : Text
    pub keys : KeySet
    pub token : Token
    pub sent : bearer (header (codes "Authorization")) ≡ got text
    pub known : (get_key_set lib now fetched a).0 ≡ got keys
    pub signed : parse keys (audiences a.cfg.audience) a.cfg.issuer text ≡ got token
    pub is_tenant :
        tenant
        ≡ or_else
            (claim_as_string lib token a.cfg.tenant_claim (codes "tenant"))
            (header (codes "X-Tenant"))
    pub is_user :
        user
        ≡ or_else
            (claim_as_string lib token a.cfg.user_claim (codes "sub"))
            (header (codes "X-User"))

  -- Where authentication is on, a request is verified only by a bearer token that parses under the
  -- current keys, audiences and issuer; the tenant is the token's claim, and the header X-Tenant where
  -- the token has no such claim.
  pub verify-IsSigned :
      (now : ℕ) (fetched : Outcome KeySet) (header : Text → Text) (a : Authenticator lib)
      (tenant user : Text)
      → a.cfg.enabled ≡ true
      → (verify lib now fetched header a).0 ≡ verified tenant user
      → IsSigned now fetched header a tenant user
  unfolding verify
  verify-IsSigned now fetched header a tenant user on h =
      elim (Outcome-cases (bearer (header (codes "Authorization")))) [
        | inr (e, bad) ↦ absurd (ground arith)
        | inl (text, sent) ↦ elim (Outcome-cases (get_key_set lib now fetched a).0) [
          | inr (e, bad) ↦ absurd (ground arith)
          | inl (keys, known) ↦
              elim (Outcome-cases (parse keys (audiences a.cfg.audience) a.cfg.issuer text)) [
                | inr (e, bad) ↦ absurd (ground arith)
                | inl (token, signed) ↦ record {
                  text = text;
                  keys = keys;
                  token = token;
                  sent = sent;
                  known = known;
                  signed = signed;
                  is_tenant = unfold named in ground arith;
                  is_user = unfold named in ground arith;
                }
              ]
        ]
      ]
