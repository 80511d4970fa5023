-- ===== src/Gateway/Limiter/Tests.antt =====
-- A limiter with buckets that count down, and the theorems at it.
use x_scope_hub_svc_plus.Prelude.Maps.{lookup}
use x_scope_hub_svc_plus.Prelude.{
  ℕ, ◌-◌, ◌≡◌, refl, ◌⊎◌, String, true, false, none, some, List, [], ◌∷◌, ltb, if◌then◌else◌, arith,
  length, replicate,
}
use Prim.Native.Nat.{min}
use x_scope_hub_svc_plus.Gateway.Limiter.{
  RateLib, answered, SortedSet, Config, Limiter, new, bucket_of, allow_request, run_script,
  redis_script,
}
use x_scope_hub_svc_plus.Gateway.Limiter.Window.{calls, calls-same_millisecond, calls-exact}
use x_scope_hub_svc_plus.Gateway.Limiter.Tenants.{
  window_of, allow_request-other_tenant, allow_request-allowed,
}

abbrev countdown : RateLib
countdown = record {
  Bucket = ℕ;
  new_limiter = λ rate burst. burst;
  allow = λ now k. if ltb 0 k then (true, k - 1) else (false, k);
}

abbrev settings : Config
settings = record { enabled = true; rps = 1500; burst = 0; window = 0; redis = true }

abbrev limiter : Limiter countdown
limiter = new countdown settings

burst_is_three : limiter.burst ≡ 3
unfolding new
burst_is_three = refl

abbrev one_call : SortedSet
one_call = record { members = 900 ∷ []; expires = 1900 }

calls-same_millisecond_example : (calls 1000 2 (replicate 9 900) one_call).0 ≡ 9
calls-same_millisecond_example =
    calls-same_millisecond 1000 2 900 9 one_call (omega arith) (omega arith) refl refl

abbrev times : List ℕ
times = 5 ∷ 6 ∷ 300 ∷ []

calls-exact_example :
    (calls 1000 2 times (record { members = []; expires = 0 })).0 ≡ min (length times) 2
calls-exact_example = calls-exact 1000 2 times 0 (omega arith)

allow_request-other_tenant_example :
    (bucket_of countdown (allow_request countdown answered 7 "a" limiter).1 "b"
      ≡ bucket_of countdown limiter "b")
    × (window_of countdown (allow_request countdown answered 7 "a" limiter).1 "b"
        ≡ window_of countdown limiter "b")
allow_request-other_tenant_example =
    allow_request-other_tenant countdown answered 7 "a" "b" limiter refl

allow_request-allowed_example :
    ((countdown.allow 7 (bucket_of countdown limiter "a")).0 ≡ true)
    × ((limiter.redis ≡ none)
        ⊎ ((store : List (String × SortedSet)) × (limiter.redis ≡ some store)
            × (answered ≡ answered)
            × ((run_script countdown 7 "a" limiter store).0 ≡ true)))
unfolding allow_request new run_script redis_script bucket_of lookup
allow_request-allowed_example =
    allow_request-allowed countdown answered 7 "a" limiter refl refl refl
