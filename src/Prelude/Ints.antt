-- ===== src/Prelude/Ints.antt =====
-- The integers over the native numbers, as in the standard library: negsuc n is -(n + 1).
use Prim.Native.Nat.{ℕ}

pub data ℤ : Type 0 where
  pos negsuc : ℕ → ℤ
