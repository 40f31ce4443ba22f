-- ===== src/Common/Int.antt =====
-- Whole numbers over the native naturals, for `i32` values. No arithmetic is done on them.
use Prim.Native.Nat.{ℕ}

-- `negsuc n` is -(n + 1).
pub data ℤ : Type 0 where
  pos : ℕ → ℤ
  negsuc : ℕ → ℤ
