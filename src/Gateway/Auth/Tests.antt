-- ===== src/Gateway/Auth/Tests.antt =====
-- An authenticator whose tokens are their tenants, and the theorems at it.
use x_scope_hub_svc_plus.Prelude.{ℕ, ◌≡◌, refl, true, none, some, [], if◌then◌else◌}
use x_scope_hub_svc_plus.Prelude.Text.{
  Text, codes, text_eq, to_lower, to_lower_byte, after_prefix, trim_space, trim, trim_left,
  trim_right, is_space,
}
use x_scope_hub_svc_plus.Gateway.Query.Handler.{verified}
use x_scope_hub_svc_plus.Gateway.Auth.{
  text, got, JwtLib, Authenticator, is_bearer, bearer, claim_text, claim_as_string, ttl, keys_from,
  get_key_set, named, with_keys, with_token, verify,
}
use x_scope_hub_svc_plus.Gateway.Auth.Keys.{IsFresh, get_key_set-IsFresh}
use x_scope_hub_svc_plus.Gateway.Auth.Tenant.{IsSigned, verify-IsSigned}

abbrev lib : JwtLib
lib = record {
  KeySet = ℕ;
  Token = Text;
  parse = λ k auds issuer t. got t;
  claim = λ t name.
      if text_eq name (codes "tenant")
      then (if text_eq t (codes "x") then none else some (text t))
      else none;
}

abbrev gate : Authenticator lib
gate = record {
  cfg = record {
    enabled = true;
    audience = [];
    issuer = [];
    tenant_claim = [];
    user_claim = [];
    cache_ttl = 100;
  };
  set = some 1;
  fetched_at = 50;
}

abbrev with_acme : Text → Text
with_acme name = if text_eq name (codes "Authorization") then codes "Bearer acme" else codes "other"

-- A token with no claim of a tenant: the header speaks.
abbrev unclaimed : Text → Text
unclaimed name = if text_eq name (codes "Authorization") then codes "Bearer x" else codes "other"

verifies : (verify lib 90 (got 2) with_acme gate).0 ≡ verified (codes "acme") (codes "other")
unfolding verify bearer is_bearer to_lower to_lower_byte after_prefix trim_space trim trim_left
    trim_right is_space text_eq with_token get_key_set keys_from ttl with_keys named claim_as_string
    claim_text
verifies = refl

takes_the_header :
    (verify lib 90 (got 2) unclaimed gate).0 ≡ verified (codes "other") (codes "other")
unfolding verify bearer is_bearer to_lower to_lower_byte after_prefix trim_space trim trim_left
    trim_right is_space text_eq with_token get_key_set keys_from ttl with_keys named claim_as_string
    claim_text
takes_the_header = refl

get_key_set-IsFresh_example : IsFresh lib 200 (got 2) gate (get_key_set lib 200 (got 2) gate)
get_key_set-IsFresh_example = get_key_set-IsFresh lib 200 (got 2) gate

verify-IsSigned_example : IsSigned lib 90 (got 2) with_acme gate (codes "acme") (codes "other")
verify-IsSigned_example =
    verify-IsSigned lib 90 (got 2) with_acme gate (codes "acme") (codes "other") refl verifies
