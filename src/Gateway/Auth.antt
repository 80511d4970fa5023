-- ===== src/Gateway/Auth.antt =====
-- observe-gateway/internal/auth/authenticator.go: bearer tokens and the cached key set.
-- The packages jwk and jwt are a record that the section takes: a fetch gives a key set or an error,
-- and a parse checks the signature, the times, the audiences and the issuer. Times are milliseconds;
-- a ttl of 0 stands for every one that is not positive.
pub mod Keys
pub mod Tenant
mod Tests
use x_scope_hub_svc_plus.Prelude.{
  ℕ, ◌-◌, Bool, true, false, not, ◌&&◌, Option, none, some, List, [], ◌∷◌, ◌++◌, ◌==◌, ltb, drop,
  is_empty, if◌then◌else◌,
}
use x_scope_hub_svc_plus.Prelude.Text.{Text, codes, to_lower, trim_space, after_prefix}
use x_scope_hub_svc_plus.Gateway.Query.Handler.{Verified, rejected, verified}

-- The value of a claim, by its Go type; the last two are what it is printed as.
pub data Claim : Type 0 where
  text : Text → Claim
  texts : List Text → Claim
  stringer : Text → Claim
  printed : Text → Claim

pub data Outcome (A : Type 0) : Type 0 where
  got : A → Outcome A
  broken : Text → Outcome A

pub record JwtLib : Type 1 where
  pub KeySet : Type 0
  pub Token : Type 0
  -- the keys, the audiences, the issuer and the text
  pub parse : KeySet → List Text → Text → Text → Outcome Token
  pub claim : Token → Text → Option Claim

pub record AuthConfig : Type 0 where
  pub enabled : Bool
  pub audience : List Text
  pub issuer : Text
  pub tenant_claim : Text
  pub user_claim : Text
  pub cache_ttl : ℕ

unfoldable pub first_text : List Text → Text
first_text [] = []
first_text (t ∷ ts) = t

unfoldable pub claim_text : Claim → Text
unfolding first_text
claim_text (text s) = s
claim_text (texts ss) = first_text ss
claim_text (stringer s) = s
claim_text (printed s) = s

-- The audiences that are asked for: an empty one is skipped.
unfoldable pub audiences : List Text → List Text
audiences [] = []
audiences (aud ∷ auds) = let rest = audiences auds in if is_empty aud then rest else aud ∷ rest

-- if s == "" { s = fallback }
abbrev pub or_else : Text → Text → Text
or_else s fallback = if is_empty s then fallback else s

-- strings.HasPrefix(strings.ToLower(header), "bearer ")
unfoldable pub is_bearer : Text → Bool
unfolding to_lower after_prefix
is_bearer header = elim (after_prefix (codes "bearer ") (to_lower header)) [
  | none ↦ false
  | some s ↦ true
]

-- The token in the header, or why there is none.
unfoldable pub bearer : Text → Outcome Text
unfolding is_bearer trim_space
bearer header =
    if is_empty header
    then broken (codes "authorization header required")
    else if not (is_bearer header)
    then broken (codes "authorization header must be bearer token")
    else if is_empty (trim_space (drop 7 header))
    then broken (codes "empty bearer token")
    else got (trim_space (drop 7 header))

module _ (lib : JwtLib) where
  open lib use {KeySet, Token, parse, claim}

  pub record Authenticator : Type 0 where
    pub cfg : AuthConfig
    pub set : Option KeySet
    pub fetched_at : ℕ

  -- cfg.CacheTTL, or an hour
  unfoldable pub ttl : Authenticator → ℕ
  ttl a = if a.cfg.cache_ttl == 0 then 3600000 else a.cfg.cache_ttl

  unfoldable pub claim_as_string : Token → Text → Text → Text
  unfolding claim_text
  claim_as_string token name fallback =
      let key = or_else name fallback in
      if is_empty key then [] else elim (claim token key) [ none ↦ [] | some c ↦ claim_text c ]

  -- `fetched` is what the server of the keys answers, if it is asked.
  unfoldable pub refresh : ℕ → Outcome KeySet → Authenticator → Outcome KeySet × Authenticator
  refresh now (broken e) a = (broken (codes "fetch jwks: " ++ e), a)
  refresh now (got k) a = (got k, record a { set = some k; fetched_at = now })

  -- The set after a refresh.
  unfoldable pub loaded : Outcome KeySet × Authenticator → Outcome KeySet × Authenticator
  loaded (broken e, a) = (broken e, a)
  loaded (got k, a) = elim a.set [
    | none ↦ (broken (codes "jwks not loaded"), a)
    | some kept ↦ (got kept, a)
  ]

  -- A set that is there and younger than the ttl is used; any other is fetched again.
  keys_from : ℕ → Outcome KeySet → Option KeySet → Authenticator → Outcome KeySet × Authenticator
  unfolding refresh ttl loaded
  keys_from now fetched none a = loaded (refresh now fetched a)
  keys_from now fetched (some k) a =
      if ltb (now - a.fetched_at) (ttl a) then (got k, a) else loaded (refresh now fetched a)

  unfoldable pub get_key_set : ℕ → Outcome KeySet → Authenticator → Outcome KeySet × Authenticator
  unfolding keys_from
  get_key_set now fetched a = keys_from now fetched a.set a

  -- The tenant and the user that a token and the headers give.
  unfoldable pub named : (Text → Text) → AuthConfig → Token → Verified
  unfolding claim_as_string
  named header cfg token =
      verified
        (or_else (claim_as_string token cfg.tenant_claim (codes "tenant"))
          (header (codes "X-Tenant")))
        (or_else (claim_as_string token cfg.user_claim (codes "sub")) (header (codes "X-User")))

  -- A token under the keys that were found.
  with_keys : (Text → Text) → AuthConfig → Text → Outcome KeySet → Verified
  unfolding named audiences
  with_keys header cfg token (broken e) = rejected e
  with_keys header cfg token (got k) = elim (parse k (audiences cfg.audience) cfg.issuer token) [
    | broken e ↦ rejected e
    | got t ↦ named header cfg t
  ]

  with_token :
      ℕ → Outcome KeySet → (Text → Text) → Outcome Text → Authenticator → Verified × Authenticator
  unfolding get_key_set with_keys
  with_token now fetched header (broken e) a = (rejected e, a)
  with_token now fetched header (got token) a =
      let (keys, a') = get_key_set now fetched a in (with_keys header a.cfg token keys, a')

  unfoldable pub verify :
      ℕ → Outcome KeySet → (Text → Text) → Authenticator → Verified × Authenticator
  unfolding bearer with_token
  verify now fetched header a =
      if not a.cfg.enabled
      then (verified (header (codes "X-Tenant")) (header (codes "X-User")), a)
      else with_token now fetched header (bearer (header (codes "Authorization"))) a
