-- ===== src/Prelude/Int.antt =====
-- Python's integers, where a request may carry a negative one.
use Prim.Native.Nat.{ℕ}
use mathlib.Core.Bool.{Bool, true, false}
use connextion_z_luna.Prelude.Tests.{leb, ◌==◌}

-- `negsuc n` is -(n + 1).
pub data ℤ : Type 0 where
  pos : ℕ → ℤ
  negsuc : ℕ → ℤ

abbrev pub eq_ℤ : ℤ → ℤ → Bool
eq_ℤ (pos a) (pos b) = a == b
eq_ℤ (negsuc a) (negsuc b) = a == b
eq_ℤ _ _ = false

-- `lo <= a <= hi`, at bounds that are not negative.
abbrev pub is_between : ℕ → ℕ → ℤ → Bool
is_between lo hi (negsuc a) = false
is_between lo hi (pos a) = elim (leb lo a) [ true ↦ leb a hi | false ↦ false ]
