-- ===== src/Prelude/Time.antt =====
-- Go's time.Time and time.Duration. A time is a number of nanoseconds since the zero time, the first
-- of January of the year 1, and no time is before that. A duration has a sign and at most 63 bits.
use Prim.Native.Nat.{ℕ, ◌+◌, ◌-◌}
use mathlib.Core.Bool.{Bool, true, false, not, ◌&&◌}
use x_scope_hub_svc_plus.Prelude.Tests.{◌==◌, ltb, leb, if◌then◌else◌}

pub record Duration : Type 0 where
  pub is_negative : Bool
  pub size : ℕ

-- Time.IsZero
abbrev pub is_zero : ℕ → Bool
is_zero t = t == 0

-- d > 0
unfoldable pub is_positive : Duration → Bool
is_positive d = not d.is_negative && ltb 0 d.size

-- t.Add(-d)
unfoldable pub before : ℕ → Duration → ℕ
before t d = if d.is_negative then t + d.size else t - d.size

abbrev longest : ℕ
longest = 9223372036854775807

abbrev at_most : ℕ → ℕ → ℕ
at_most bound n = if leb bound n then bound else n

-- end.Sub(start), which stops at the ends of its range
unfoldable pub since : ℕ → ℕ → Duration
since end start =
    if ltb end start
    then record { is_negative = true; size = at_most (longest + 1) (start - end) }
    else record { is_negative = false; size = at_most longest (end - start) }

abbrev pub one_hour : ℕ
one_hour = 3600000000000
