-- ===== src/Prelude/Int.antt =====
-- C's `int` where it can be negative. `negsuc n` is -(n + 1).
use Prim.Native.Nat.{ℕ, zero, suc}

pub data ℤ : Type 0 where
  pos : ℕ → ℤ
  negsuc : ℕ → ℤ

-- n - 1 of an unsigned n that is kept in an `int`.
unfoldable pub pred_int : ℕ → ℤ
pred_int zero = negsuc 0
pred_int (suc n) = pos n
