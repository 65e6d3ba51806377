-- ===== src/Common/Int.antt =====
-- Signed C integers as mathematical integers, where the source compares or converts them.
use Prim.Native.Nat.{ℕ}

-- `negsuc n` is -(n + 1).
pub data ℤ : Type 0 where
  pos : ℕ → ℤ
  negsuc : ℕ → ℤ
