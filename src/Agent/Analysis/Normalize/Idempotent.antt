-- ===== src/Agent/Analysis/Normalize/Idempotent.antt =====
-- A normalised request is complete (llm-ops-agent/internal/analysis/service.go, normalizeRequest).
use x_scope_hub_svc_plus.Prelude.{
  ℕ, ◌≡◌, ◌≢◌, false, is_empty, ◌<◌, arith, Bool-cases, ◌⊎◌, inl, inr,
}
use x_scope_hub_svc_plus.Prelude.Text.{Text}
use x_scope_hub_svc_plus.Prelude.Time.{Duration}
use x_scope_hub_svc_plus.Agent.Analysis.{Request, Defaults}
use x_scope_hub_svc_plus.Agent.Analysis.Normalize.{
  Clock, new_defaults, is_blank, window_or_length, normalize_request,
}

module _ (clock : Clock) (defaults : Defaults) where
  -- Nothing is left to fill in but what has no default.
  pub record IsComplete (req : Request) : Type 0 where
    pub goal : is_empty req.goal ≡ false
    pub tenant : (is_blank req.tenant ≡ false) ⊎ (req.tenant ≡ defaults.default_tenant)
    pub user : (is_blank req.user ≡ false) ⊎ (req.user ≡ defaults.default_user)
    pub window : is_blank req.window ≡ false
    pub end : req.end ≢ 0
    pub max_items : 0 < req.max_items

  module _ (prints : (d : Duration) → is_blank (clock.duration_text d) ≡ false) where
    window_or_length-named :
        (window : Text) (start end : ℕ)
        → is_blank (window_or_length clock defaults window start end) ≡ false
    unfolding window_or_length
    window_or_length-named window start end = elim (Bool-cases (is_blank window)) [
      | inl blank ↦ rw blank (prints _)
      | inr named ↦ rw named named
    ]

    normalize_request-IsComplete :
        (now : ℕ) (req : Request)
        → 0 < now
        → 0 < defaults.max_items
        → IsComplete (normalize_request clock defaults now req)
    unfolding normalize_request
    normalize_request-IsComplete now req later items = record {
      goal = ground arith;
      tenant = ground arith;
      user = ground arith;
      window = window_or_length-named _ _ _;
      end = ground arith;
      max_items = ground arith;
    }

  -- A complete request with a start is left alone.
  IsComplete-normalize_request :
      (now : ℕ) (req : Request)
      → IsComplete req
      → req.start ≢ 0
      → normalize_request clock defaults now req ≡ req
  unfolding normalize_request
  IsComplete-normalize_request now req h started = ground arith

-- Normalising twice is normalising once, also when time has passed in between: where durations are
-- not printed as blanks, the clock does not show the zero time, and the start that comes out is not
-- the zero time, with the defaults that NewService makes of any options.
pub normalize_request-idempotent :
    (clock : Clock) (tenant user : Text) (window : Duration) (items now later : ℕ) (req : Request)
    → ((d : Duration) → is_blank (clock.duration_text d) ≡ false)
    → 0 < now
    → (normalize_request clock (new_defaults tenant user window items) now req).start ≢ 0
    → normalize_request clock
        (new_defaults tenant user window items)
        later
        (normalize_request clock (new_defaults tenant user window items) now req)
      ≡ normalize_request clock (new_defaults tenant user window items) now req
unfolding new_defaults
normalize_request-idempotent clock tenant user window items now later req prints shown started =
    let defaults = new_defaults tenant user window items in
    IsComplete-normalize_request clock defaults later (normalize_request clock defaults now req)
      (normalize_request-IsComplete clock defaults prints now req shown (ground arith)) started
