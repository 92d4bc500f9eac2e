-- ===== src/Shared/Int.antt =====
-- Go's signed integers, as far as a sign is needed: `negsuc n` is -(n + 1).
use Prim.Native.Nat.{ℕ}

pub data ℤ : Type 0 where
  pos : ℕ → ℤ
  negsuc : ℕ → ℤ
