-- ===== src/Prelude/Int.antt =====
-- Signed C integers: `pos n` is n, and `negsuc n` is -(n + 1).
use Prim.Native.Nat.{ℕ, zero, suc}
use tram.Prelude.Tests.{◌==◌}
use mathlib.Core.Bool.{Bool, true, false}

pub data ℤ : Type 0 where
  pos : ℕ → ℤ
  negsuc : ℕ → ℤ

-- `res < 0`
abbrev pub is_neg : ℤ → Bool
is_neg (pos n) = false
is_neg (negsuc n) = true

-- -1
abbrev pub minus_one : ℤ
minus_one = negsuc 0

-- `-res`
abbrev pub neg : ℤ → ℤ
neg (pos n) = elim n [ zero ↦ pos 0 | suc k ↦ negsuc k ]
neg (negsuc n) = pos (suc n)

abbrev pub is_zero : ℤ → Bool
is_zero (pos n) = n == 0
is_zero (negsuc n) = false
