-- ===== src/Base/Integers.antt =====
-- Integers over the native numbers, where the program has negative ones.
use Prim.Native.Nat.{ℕ}

-- `pos n` is n and `negsuc n` is -(n + 1).
pub data ℤ : Type 0 where
  pos : ℕ → ℤ
  negsuc : ℕ → ℤ
