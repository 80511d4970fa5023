-- ===== src/Gateway/Limiter/Window.antt =====
-- What the Redis window of observe-gateway/internal/limiter/limiter.go admits.
use Prim.Native.Nat.{min}
use x_scope_hub_svc_plus.Prelude.{
  ℕ, zero, suc, ◌+◌, ◌-◌, ◌≤◌, ◌<◌, ◌≡◌, refl, ◌⊎◌, true, false, List, [], ◌∷◌, length, replicate,
  All, leb, arith, Bool-cases, if◌then◌else◌, inl, inr,
}
use x_scope_hub_svc_plus.Gateway.Limiter.{SortedSet, keep_after, prune, contains, redis_script}

-- The calls of one tenant at the given times: how many the script admits, and the set that is left.
unfoldable pub calls : ℕ → ℕ → List ℕ → SortedSet → ℕ × SortedSet
calls window limit [] z = (0, z)
calls window limit (t ∷ ts) z =
    let (passed, z') = redis_script t window limit z in
    let (n, last) = calls window limit ts z' in ((if passed then n + 1 else n), last)

length-keep_after : (b : ℕ) (ts : List ℕ) → length (keep_after b ts) ≤ length ts
unfolding keep_after
length-keep_after b [] = omega arith
length-keep_after b (t ∷ ts) = ground (arith, length-keep_after b ts)

-- The set never holds more than `limit` members, once it does not.
pub redis_script_bound :
    (now window limit : ℕ) (z : SortedSet)
    → length z.members ≤ limit
    → length (redis_script now window limit z).1.members ≤ limit
unfolding redis_script
redis_script_bound now window limit z h = ground (arith, length-keep_after (now - window) z.members)

script-same_millisecond :
    (window limit now : ℕ) (z : SortedSet)
    → 0 < window
    → 1 < limit
    → z.members ≡ now ∷ []
    → z.expires ≡ now + window
    → redis_script now window limit z ≡ (true, z)
unfolding redis_script keep_after
script-same_millisecond window limit now z w l m e = ground arith

-- Every call of one millisecond is admitted, however many they are, where the limit is two or more
-- and the set holds just that millisecond: they are one member of the set.
pub calls-same_millisecond :
    (window limit now n : ℕ) (z : SortedSet)
    → 0 < window
    → 1 < limit
    → z.members ≡ now ∷ []
    → z.expires ≡ now + window
    → (calls window limit (replicate n now) z).0 ≡ n
unfolding calls
calls-same_millisecond window limit now zero z w l m e = refl
calls-same_millisecond window limit now (suc n) z w l m e =
    rw (script-same_millisecond window limit now z w l m e)
      (omega (arith, calls-same_millisecond window limit now n z w l m e))

-- Times that come one after another, all within one window of each.
abbrev pub Follows : ℕ → ℕ → ℕ → Type 0
Follows window t u = (t < u) × (u < t + window)

abbrev pub IsSpread : ℕ → List ℕ → Type 0
IsSpread window [] = Unit
IsSpread window (t ∷ ts) = All (Follows window t) ts × IsSpread window ts

keep_after-All : (b : ℕ) (ms : List ℕ) → All (λ m. b < m) ms → keep_after b ms ≡ ms
unfolding keep_after
keep_after-All b [] h = refl
keep_after-All b (m ∷ ms) h = ground (arith, keep_after-All b ms h.1)

contains-earlier : (t : ℕ) (ms : List ℕ) → All (λ m. m < t) ms → contains t ms ≡ false
contains-earlier t [] h = refl
contains-earlier t (m ∷ ms) h = ground (arith, contains-earlier t ms h.1)

All-below : (window t : ℕ) (ms : List ℕ) → All (λ m. Follows window m t) ms → All (λ m. m < t) ms
All-below window t [] h = tt
All-below window t (m ∷ ms) h = (h.0.0, All-below window t ms h.1)

All-within : (window t : ℕ) (ts : List ℕ) → All (Follows window t) ts → All (λ u. u < t + window) ts
All-within window t [] h = tt
All-within window t (u ∷ us) h = (h.0.1, All-within window t us h.1)

All-above :
    (window t : ℕ) (ms : List ℕ)
    → window ≤ t
    → All (λ m. Follows window m t) ms
    → All (λ m. t - window < m) ms
All-above window t [] w h = tt
All-above window t (m ∷ ms) w h = (omega arith, All-above window t ms w h.1)

prune-All : (window t : ℕ) (ms : List ℕ) → All (λ m. Follows window m t) ms → prune t window ms ≡ ms
unfolding prune
prune-All window t ms h = elim (Bool-cases (leb window t)) [
  | inl late ↦ rw late (keep_after-All (t - window) ms (All-above window t ms (ground arith) h))
  | inr early ↦ rw early
]

-- A call at a time after all members, within the window of each, is admitted while there is room.
script-room :
    (window limit t : ℕ) (z : SortedSet)
    → All (λ m. Follows window m t) z.members
    → (z.members ≡ []) ⊎ (t < z.expires)
    → redis_script t window limit z ≡ (
        if leb limit (length z.members)
        then (false, z)
        else (true, record { members = t ∷ z.members; expires = t + window }))
unfolding redis_script
script-room window limit t z h e = ground (
  arith,
  prune-All window t z.members h,
  contains-earlier t z.members (All-below window t z.members h),
)

-- Every pair of a member and a later call is within one window.
abbrev IsAhead : ℕ → List ℕ → List ℕ → Type 0
IsAhead window ms [] = Unit
IsAhead window ms (t ∷ ts) = All (λ m. Follows window m t) ms × IsAhead window ms ts

IsAhead-add :
    (window t : ℕ) (ms ts : List ℕ)
    → All (Follows window t) ts
    → IsAhead window ms ts
    → IsAhead window (t ∷ ms) ts
IsAhead-add window t ms [] f h = tt
IsAhead-add window t ms (u ∷ us) f h = ((f.0, h.0), IsAhead-add window t ms us f.1 h.1)

IsAhead-nil : (window : ℕ) (ts : List ℕ) → IsAhead window [] ts
IsAhead-nil window [] = tt
IsAhead-nil window (t ∷ ts) = (tt, IsAhead-nil window ts)

module _ (window limit : ℕ) where
  -- What is left of the limit is what the script still admits.
  calls-room :
      (ts : List ℕ) (z : SortedSet)
      → IsSpread window ts
      → IsAhead window z.members ts
      → (z.members ≡ []) ⊎ All (λ t. t < z.expires) ts
      → (calls window limit ts z).0 ≡ min (length ts) (limit - length z.members)
  unfolding calls
  calls-room [] z s a e = omega arith
  calls-room (t ∷ ts) z s a e =
      rw (script-room window limit t z a.0 (now_or_never e))
        (elim (Bool-cases (leb limit (length z.members))) [
          | inl full ↦ rw full (ground (arith, calls-room ts z s.1 a.1 (later e)))
          | inr room ↦ rw room (
              ground (
                arith,
                calls-room ts (record { members = t ∷ z.members; expires = t + window }) s.1
                    (IsAhead-add window t z.members ts s.0 a.1) (inr (All-within window t ts s.0)),
              ))
        ])
    where
      now_or_never :
          (z.members ≡ []) ⊎ All (λ u. u < z.expires) (t ∷ ts) → (z.members ≡ []) ⊎ (t < z.expires)
      now_or_never (inl n) = inl n
      now_or_never (inr h) = inr h.0

      later :
          (z.members ≡ []) ⊎ All (λ u. u < z.expires) (t ∷ ts)
          → (z.members ≡ []) ⊎ All (λ u. u < z.expires) ts
      later (inl n) = inl n
      later (inr h) = inr h.1

  -- Of calls at times that follow one another within one window, starting from an empty set, the
  -- script admits exactly the limit, or all of them if they are fewer.
  pub calls-exact :
      (ts : List ℕ) (now : ℕ)
      → IsSpread window ts
      → (calls window limit ts (record { members = []; expires = now })).0 ≡ min (length ts) limit
  calls-exact ts now s = omega (
    arith,
    calls-room ts (record { members = []; expires = now }) s (IsAhead-nil window ts) (inl refl),
  )
