-- ===== src/Common/Int.antt =====
-- Signed integers over the native numbers: the amounts of the credit ledger.
use Prim.Native.Nat.{ℕ}
use mathlib.Core.Bool.{Bool, false}
use scan_pal.Common.Tests.{◌==◌}

-- `negsuc n` is -(n + 1).
pub data ℤ : Type 0 where
  pos : ℕ → ℤ
  negsuc : ℕ → ℤ

abbrev pub eq_ℤ : ℤ → ℤ → Bool
eq_ℤ (pos a) (pos b) = a == b
eq_ℤ (negsuc a) (negsuc b) = a == b
eq_ℤ _ _ = false
