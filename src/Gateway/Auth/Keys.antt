-- ===== src/Gateway/Auth/Keys.antt =====
-- The key set of observe-gateway/internal/auth/authenticator.go.
use x_scope_hub_svc_plus.Prelude.{
  ℕ, ◌-◌, ◌<◌, ◌≡◌, refl, ◌⊎◌, inl, inr, Option, none, some, ltb, arith, Bool-cases,
}
use x_scope_hub_svc_plus.Prelude.Text.{Text}
use x_scope_hub_svc_plus.Gateway.Auth.{
  Outcome, got, broken, JwtLib, Authenticator, ttl, refresh, loaded, keys_from, get_key_set,
}

module _ (lib : JwtLib) where
  open lib use {KeySet}

  -- A key set that is given out is the one that is kept, and younger than the ttl; it was kept before
  -- or has just been fetched.
  abbrev pub IsFresh :
      ℕ → Outcome KeySet → Authenticator lib → Outcome KeySet × Authenticator lib → Type 0
  IsFresh now fetched a answer =
      ((k : KeySet) × (answer.0 ≡ got k)
        × (answer.1.set ≡ some k)
        × (now - answer.1.fetched_at < ttl lib a)
        × ((answer.1 ≡ a) ⊎ (fetched ≡ got k)))
      ⊎ ((e : Text) × (answer.0 ≡ broken e) × (answer.1 ≡ a))

  ttl-positive : (a : Authenticator lib) → 0 < ttl lib a
  unfolding ttl
  ttl-positive a = ground arith

  refresh-IsFresh :
      (now : ℕ) (fetched : Outcome KeySet) (a : Authenticator lib)
      → IsFresh now fetched a (loaded lib (refresh lib now fetched a))
  unfolding refresh loaded
  refresh-IsFresh now (broken e) a = inr (_, refl, refl)
  refresh-IsFresh now (got k) a = inl (k, refl, refl, omega (arith, ttl-positive a), inr refl)

  keys_from-IsFresh :
      (now : ℕ) (fetched : Outcome KeySet) (o : Option KeySet) (a : Authenticator lib)
      → a.set ≡ o
      → IsFresh now fetched a (keys_from lib now fetched o a)
  unfolding keys_from
  keys_from-IsFresh now fetched none a kept = refresh-IsFresh now fetched a
  keys_from-IsFresh now fetched (some k) a kept =
      elim (Bool-cases (ltb (now - a.fetched_at) (ttl lib a))) [
        | inr old ↦ rw (old, keys_from) (refresh-IsFresh now fetched a)
        | inl young ↦ rw (young, keys_from) (inl (k, refl, kept, ground arith, inl refl))
      ]

  -- A key set that is given out is younger than the ttl and is the one that is kept, and it was kept
  -- before or has just been fetched; where none is given out, the authenticator is as it was.
  pub get_key_set-IsFresh :
      (now : ℕ) (fetched : Outcome KeySet) (a : Authenticator lib)
      → IsFresh now fetched a (get_key_set lib now fetched a)
  unfolding get_key_set
  get_key_set-IsFresh now fetched a = keys_from-IsFresh now fetched a.set a refl
