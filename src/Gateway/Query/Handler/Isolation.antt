-- ===== src/Gateway/Query/Handler/Isolation.antt =====
-- Where the data comes from that handleQuery of observe-gateway/internal/server/server.go answers
-- with, and that it is the tenant's own.
use x_scope_hub_svc_plus.Prelude.{◌≡◌, refl, ◌⊎◌, inl, inr, Option, none, some, arith, Option-cases}
use x_scope_hub_svc_plus.Prelude.Text.{Text, codes}
use x_scope_hub_svc_plus.Gateway.Limiter.{Verdict, allowed, rate_limited, redis_error}
use x_scope_hub_svc_plus.Gateway.Query.{get, set}
use x_scope_hub_svc_plus.Gateway.Query.Key.{build_cache_key}
use x_scope_hub_svc_plus.Gateway.Query.Handler.{
  Result, Answer, result, unsupported, failed, Library, HttpRequest, Moment, error_body,
  payload_body, HttpResponse, Refusal, Admitted, Admission, refused, admitted, dispatch, admit,
  Server, response_to, serve, limited, handle_query,
}
use x_scope_hub_svc_plus.Gateway.Query.Handler.Guards.{IsAdmitted, admit-IsAdmitted}

pub Answer-cases :
    {P : Type 0} (a : Answer P)
    → ((r : Result P) × (a ≡ result r))
      ⊎ (((e : Text) × (a ≡ unsupported e)) ⊎ ((e : Text) × (a ≡ failed e)))
Answer-cases (result r) = inl (r, refl)
Answer-cases (unsupported e) = inr (inl (e, refl))
Answer-cases (failed e) = inr (inr (e, refl))

pub Admission-cases :
    (a : Admission) → ((d : Refusal) × (a ≡ refused d)) ⊎ ((b : Admitted) × (a ≡ admitted b))
Admission-cases (refused d) = inl (d, refl)
Admission-cases (admitted b) = inr (b, refl)

pub Verdict-cases : (v : Verdict) → (v ≡ allowed) ⊎ ((v ≡ rate_limited) ⊎ (v ≡ redis_error))
Verdict-cases allowed = inl refl
Verdict-cases rate_limited = inr (inl refl)
Verdict-cases redis_error = inr (inr refl)

module _ (lib : Library) where
  open lib use {Payload, Limits, allow, format_time, is_duration, marshal}

  -- An answer that is an error leaves the cache as it was.
  abbrev pub IsError : HttpResponse Payload × Server lib → Server lib → Type 0
  IsError (r, s') s = ((e : Text) × (r.body ≡ error_body e)) × (s'.cache ≡ s.cache)

  -- The payload was in the cache, or a backend gave it for the tenant and it was put there.
  pub record IsServed (m : Moment) (a : Admitted) (s : Server lib)
      (answer : HttpResponse Payload × Server lib) (p : Payload) : Type 0 where
    pub is_body : answer.0.body ≡ payload_body p
    pub is_ok : answer.0.status ≡ 200
    pub source :
        ((get m.held (build_cache_key format_time a.request a.tenant) s.cache ≡ some p)
          × (answer.1.cache ≡ s.cache))
        ⊎ ((res : Result Payload) × (dispatch s.backend a.tenant a.request ≡ result res)
            × (marshal (response_to lib m.duration a res) ≡ some p)
            × (answer.1.cache
                ≡ set m.accepts (build_cache_key format_time a.request a.tenant) p s.cache))

  serve_cases :
      (m : Moment) (a : Admitted) (s : Server lib)
      → IsError (serve lib m a s) s ⊎ ((p : Payload) × IsServed m a s (serve lib m a s) p)
  unfolding serve
  serve_cases m a s =
      elim (Option-cases (get m.held (build_cache_key format_time a.request a.tenant) s.cache)) [
        | inr (p, hit) ↦ inr (
          p,
          record { is_body = ground arith; is_ok = ground arith; source = inl (hit, ground arith) },
        )
        | inl miss ↦ elim (Answer-cases (dispatch s.backend a.tenant a.request)) [
          | inr (inl (e, bad)) ↦ inl ((e, ground arith), ground arith)
          | inr (inr (e, bad)) ↦ inl ((e, ground arith), ground arith)
          | inl (res, good) ↦ elim (Option-cases (marshal (response_to lib m.duration a res))) [
            | inl bad ↦ inl ((codes "marshal response failed", ground arith), ground arith)
            | inr (p, written) ↦ inr (
              p,
              record {
                is_body = ground arith;
                is_ok = ground arith;
                source = inr (res, good, written, ground arith);
              },
            )
          ]
        ]
      ]

  -- The limiter has let the request through, or there is none.
  abbrev pub HasRoom : Moment → Admitted → Server lib → Type 0
  HasRoom m a s =
      (s.limiter ≡ none)
      ⊎ ((l : Limits) × (s.limiter ≡ some l) × ((allow m.now a.tenant l).0 ≡ allowed))

  limited_cases :
      (m : Moment) (a : Admitted) (o : Option Limits) (s : Server lib)
      → s.limiter ≡ o
      → IsError (limited lib m a o s) s
        ⊎ ((p : Payload) × HasRoom m a s × IsServed m a s (limited lib m a o s) p)
  unfolding limited
  limited_cases m a none s e = elim (serve_cases m a s) [
    | inl bad ↦ inl bad
    | inr (p, k) ↦ inr (p, inl e, k)
  ]
  limited_cases m a (some l) s e = elim (Verdict-cases (allow m.now a.tenant l).0) [
    | inr (inl slow) ↦ inl ((codes "rate limit exceeded", ground arith), ground arith)
    | inr (inr down) ↦ inl ((lib.limiter_failure, ground arith), ground arith)
    | inl passes ↦
        let same : limited lib m a (some l) s
            ≡ serve lib m a (record s { limiter = some (allow m.now a.tenant l).1 }) =
          rw (passes, limited) in
        rw same (elim (serve_cases m a (record s { limiter = some (allow m.now a.tenant l).1 })) [
          | inl bad ↦ inl bad
          | inr (p, k) ↦ inr (
            p,
            inr (l, e, passes),
            record { is_body = k.is_body; is_ok = k.is_ok; source = k.source },
          )
        ])
  ]

  -- An answer with data: to whom, and that every guard has let the request through.
  pub record IsAnswered (m : Moment) (http : HttpRequest) (s : Server lib)
      (answer : HttpResponse Payload × Server lib) (p : Payload) : Type 0 where
    pub a : Admitted
    pub passed : admit is_duration s.cfg s.auth http ≡ admitted a
    pub guards : IsAdmitted is_duration s.auth http a
    pub room : HasRoom m a s
    pub served : IsServed m a s answer p

  -- Every answer is an error that leaves the cache alone, or has status 200 and data, and then the
  -- request passed all guards and the limiter, and the data was in the cache under the key of the
  -- request and its tenant, or is what a backend gave for that tenant.
  pub handle_query_cases :
      (m : Moment) (http : HttpRequest) (s : Server lib)
      → IsError (handle_query lib m http s) s
        ⊎ ((p : Payload) × IsAnswered m http s (handle_query lib m http s) p)
  unfolding handle_query
  handle_query_cases m http s = elim (Admission-cases (admit is_duration s.cfg s.auth http)) [
    | inl (d, bad) ↦ inl ((d.message, ground arith), ground arith)
    | inr (a, good) ↦
        let same : handle_query lib m http s ≡ limited lib m a s.limiter s =
          rw (good, handle_query) in
        rw same (elim (limited_cases m a s.limiter s refl) [
          | inl bad ↦ inl bad
          | inr (p, room, k) ↦ inr (
            p,
            record {
              a = a;
              passed = good;
              guards = admit-IsAdmitted is_duration s.cfg s.auth http a good;
              room = room;
              served = k;
            },
          )
        ])
  ]
