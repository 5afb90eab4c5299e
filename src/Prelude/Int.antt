-- ===== src/Prelude/Int.antt =====
-- `i64` values: exit codes and timestamps.
use Prim.Native.Nat.{ℕ}
use mathlib.Core.Bool.{Bool, false}
use freshdock.Prelude.Tests.{eqb}

-- `negsuc n` is -(n + 1).
pub data ℤ : Type 0 where
  pos : ℕ → ℤ
  negsuc : ℕ → ℤ

-- Is the integer this natural number?
abbrev pub is_code : ℕ → ℤ → Bool
is_code n (pos m) = eqb m n
is_code n (negsuc m) = false
