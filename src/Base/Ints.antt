-- ===== src/Base/Ints.antt =====
-- The integers over the native numbers, for Go's signed numbers.
use Prim.Native.Nat.{ℕ}

pub data ℤ : Type 0 where
  pos : ℕ → ℤ
  negsuc : ℕ → ℤ
