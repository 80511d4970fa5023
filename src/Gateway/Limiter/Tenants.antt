-- ===== src/Gateway/Limiter/Tenants.antt =====
-- Tenants do not share limits (observe-gateway/internal/limiter/limiter.go).
use x_scope_hub_svc_plus.Prelude.Maps.{lookup, lookup-insert}
use x_scope_hub_svc_plus.Prelude.{
  ℕ, ◌<◌, ◌≡◌, ◌⊎◌, inl, inr, String, true, false, Option, none, some, List, str_eq, arith,
  Option-cases,
}
use x_scope_hub_svc_plus.Gateway.Limiter.{
  RateLib, RedisCall, answered, unreachable, reply_lost, SortedSet, Config, allowed, Limiter, new,
  bucket_of, allow_local, allow_redis, allow_request, run_script,
}

module _ (lib : RateLib) where
  -- The sorted set that Redis keeps for a tenant, if the limiter has a Redis client.
  abbrev pub window_of : Limiter lib → String → Option (Option SortedSet)
  window_of l tenant = elim l.redis [ none ↦ none | some store ↦ some (lookup tenant store) ]

  module _ (call : RedisCall) (now : ℕ) (a b : String) (l : Limiter lib)
      (ne : str_eq a b ≡ false) where
    local_untouched :
        (lookup b (allow_request lib call now a l).1.local ≡ lookup b l.local)
        × ((allow_request lib call now a l).1.rps ≡ l.rps)
        × ((allow_request lib call now a l).1.burst ≡ l.burst)
    unfolding allow_request
    local_untouched =
        ground (arith, lookup-insert a b (lib.allow now (bucket_of lib l a)).1 l.local)

  window_untouched :
      (call : RedisCall) (now : ℕ) (a b : String) (l : Limiter lib)
      (store : List (String × SortedSet))
      → str_eq a b ≡ false
      → l.redis ≡ some store
      → window_of (allow_redis lib call now a l store).1 b ≡ some (lookup b store)
  unfolding allow_redis
  window_untouched unreachable now a b l store ne e = rw e
  window_untouched reply_lost now a b l store ne e =
      ground (arith, ne, lookup-insert a b (run_script lib now a l store).1 store)
  window_untouched answered now a b l store ne e =
      ground (arith, ne, lookup-insert a b (run_script lib now a l store).1 store)

  -- A request of one tenant leaves the bucket and the window of every other tenant as they were.
  pub allow_request-other_tenant :
      (call : RedisCall) (now : ℕ) (a b : String) (l : Limiter lib)
      → str_eq a b ≡ false
      → (bucket_of lib (allow_request lib call now a l).1 b ≡ bucket_of lib l b)
        × (window_of (allow_request lib call now a l).1 b ≡ window_of l b)
  unfolding allow_request
  allow_request-other_tenant call now a b l h = (
    unfold bucket_of in ground (arith, local_untouched call now a b l h),
    elim (Option-cases l.redis) [
      | inl no_client ↦ ground arith
      | inr (store, client) ↦
          ground (arith, window_untouched call now a b (allow_local lib now a l).1 store h client)
    ],
  )

  -- A request of a tenant with a name passes an enabled limiter only if the tenant's bucket lets it
  -- pass and, where there is a Redis client, the script runs, its reply arrives and it admits the
  -- request. Without a Redis client, which is what an empty redis_addr gives, the bucket still limits.
  pub allow_request-allowed :
      (call : RedisCall) (now : ℕ) (tenant : String) (l : Limiter lib)
      → l.enabled ≡ true
      → str_eq tenant "" ≡ false
      → (allow_request lib call now tenant l).0 ≡ allowed
      → ((lib.allow now (bucket_of lib l tenant)).0 ≡ true)
        × ((l.redis ≡ none)
            ⊎ ((store : List (String × SortedSet)) × (l.redis ≡ some store)
                × (call ≡ answered)
                × ((run_script lib now tenant l store).0 ≡ true)))
  unfolding allow_request run_script
  allow_request-allowed call now tenant l e n h = (
    ground arith,
    elim (Option-cases l.redis) [
      | inl no_client ↦ inl no_client
      | inr (store, client) ↦ inr (store, client, ground arith, ground arith)
    ],
  )

  -- A limiter that is switched on has room for a request and a window that is not empty.
  pub new_usable :
      (cfg : Config)
      → cfg.enabled ≡ true
      → (0 < (new lib cfg).burst) × (0 < (new lib cfg).window) × ((new lib cfg).enabled ≡ true)
  unfolding new
  new_usable cfg h = ground arith
