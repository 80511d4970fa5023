-- ===== src/Gateway/Limiter.antt =====
-- observe-gateway/internal/limiter/limiter.go: limits for each tenant.
-- Times and durations are milliseconds. An int or a duration that the code only tests for being
-- positive is a natural number, and 0 stands for every value that is not. `rps`, a float64, is in
-- thousandths. golang.org/x/time/rate is a record that the section takes; what becomes of a call of
-- Redis is an argument; the Lua script is translated, over sorted sets of times.
pub mod Window
pub mod Tenants
mod Tests
use x_scope_hub_svc_plus.Prelude.Maps.{lookup, insert}
use x_scope_hub_svc_plus.Prelude.{
  ℕ, ◌+◌, ◌-◌, ◌*◌, ◌/◌, String, Bool, true, false, not, ◌||◌, Option, none, some, List, [], ◌∷◌,
  length, ◌==◌, ltb, leb, str_eq, if◌then◌else◌,
}

-- What becomes of a call of the script: it runs and its reply arrives, it does not run, or it runs and
-- the reply is lost. The client returns an error for the last two.
pub data RedisCall : Type 0 where
  answered unreachable reply_lost : RedisCall

pub data Limit : Type 0 where
  inf : Limit
  per_second : ℕ → Limit

-- golang.org/x/time/rate: NewLimiter, and Allow at a time.
pub record RateLib : Type 1 where
  pub Bucket : Type 0
  pub new_limiter : Limit → ℕ → Bucket
  pub allow : ℕ → Bucket → Bool × Bucket

-- What a Redis sorted set holds, and when its key expires.
pub record SortedSet : Type 0 where
  pub members : List ℕ
  pub expires : ℕ

abbrev pub minute : ℕ
minute = 60000

-- ZREMRANGEBYSCORE key 0 (now - window): a negative bound removes nothing.
unfoldable pub keep_after : ℕ → List ℕ → List ℕ
keep_after bound [] = []
keep_after bound (t ∷ ts) = if leb t bound then keep_after bound ts else t ∷ keep_after bound ts

unfoldable pub prune : ℕ → ℕ → List ℕ → List ℕ
unfolding keep_after
prune now window ts = if leb window now then keep_after (now - window) ts else ts

abbrev pub contains : ℕ → List ℕ → Bool
contains k [] = false
contains k (t ∷ ts) = t == k || contains k ts

-- ZADD key now now: a member that is there already is not added again.
unfoldable pub zadd : ℕ → List ℕ → List ℕ
zadd now ts = if contains now ts then ts else now ∷ ts

-- The members of a key that has expired are gone.
abbrev pub live_members : ℕ → SortedSet → List ℕ
live_members now z = if leb z.expires now then [] else z.members

-- The script: 1 is true.
unfoldable pub redis_script : ℕ → ℕ → ℕ → SortedSet → Bool × SortedSet
unfolding prune zadd
redis_script now window limit z =
    let ts = prune now window (live_members now z) in
    if leb limit (length ts)
    then (false, record z { members = ts })
    else (true, record { members = zadd now ts; expires = now + window })

pub record Config : Type 0 where
  pub enabled : Bool
  pub rps : ℕ
  pub burst : ℕ
  pub window : ℕ
  pub redis : Bool

pub data Verdict : Type 0 where
  allowed : Verdict
  rate_limited : Verdict
  redis_error : Verdict

module _ (lib : RateLib) where
  open lib use {Bucket, new_limiter, allow}

  pub record Limiter : Type 0 where
    pub enabled : Bool
    pub rps : ℕ
    pub burst : ℕ
    pub window : ℕ
    pub local : List (String × Bucket)
    pub redis : Option (List (String × SortedSet))  -- none is a nil client

  at_least_one : ℕ → ℕ
  at_least_one n = if ltb n 1 then 1 else n

  unfoldable pub new : Config → Limiter
  unfolding at_least_one
  new cfg =
      if not cfg.enabled
      then record { enabled = false; rps = 0; burst = 0; window = 0; local = []; redis = none }
      else record {
        enabled = true;
        rps = cfg.rps;
        burst = if cfg.burst == 0 then at_least_one (cfg.rps * 2 / 1000) else cfg.burst;
        window = if cfg.window == 0 then minute else cfg.window;
        local = [];
        redis = if cfg.redis then some [] else none;
      }

  -- The bucket of a tenant; a tenant that is new to the limiter gets a full one.
  unfoldable pub bucket_of : Limiter → String → Bucket
  bucket_of l tenant = elim (lookup tenant l.local) [
    | some b ↦ b
    | none ↦ new_limiter (if ltb 0 l.rps then per_second l.rps else inf) l.burst
  ]

  unfoldable pub allow_local : ℕ → String → Limiter → Bool × Limiter
  allow_local now tenant l =
      let (passed, b) = allow now (bucket_of l tenant) in
      (passed, record l { local = insert tenant b l.local })

  abbrev set_of : List (String × SortedSet) → String → SortedSet
  set_of store key = elim (lookup key store) [
    | some z ↦ z
    | none ↦ record { members = []; expires = 0 }
  ]

  -- The script run for a tenant. Its key is the tenant's name; the prefix "rate:" is left out.
  unfoldable pub run_script : ℕ → String → Limiter → List (String × SortedSet) → Bool × SortedSet
  run_script now tenant l store =
      redis_script now (if l.window == 0 then minute else l.window)
        (if l.burst == 0 then 1 else l.burst) (set_of store tenant)

  unfoldable pub allow_redis :
      RedisCall → ℕ → String → Limiter → List (String × SortedSet) → Verdict × Limiter
  allow_redis call now tenant l store =
      let (passed, z) = run_script now tenant l store in
      let ran = record l { redis = some (insert tenant z store) } in
      elim call [
        | unreachable ↦ (redis_error, l)
        | reply_lost ↦ (redis_error, ran)
        | answered ↦ (if passed then allowed else rate_limited, ran)
      ]

  unfoldable pub allow_request : RedisCall → ℕ → String → Limiter → Verdict × Limiter
  unfolding allow_local allow_redis
  allow_request call now tenant l =
      let (passed, l') = allow_local now tenant l in
      if not l.enabled || str_eq tenant ""
      then (allowed, l)
      else if not passed
      then (rate_limited, l')
      else elim l'.redis [
        | none ↦ (allowed, l')
        | some store ↦ allow_redis call now tenant l' store
      ]
