-- ===== src/Common/Int.antt =====
-- Signed integers over the native numbers; `negsuc n` is -(n + 1).
use Prim.Native.Nat.{ℕ, zero, suc, ◌+◌, ◌-◌}
use mathlib.Core.Bool.{Bool, true, false}
use qwen3_8_flash_dgx_auto_r.Common.Tests.{ltb, ◌==◌, if◌then◌else◌}

pub data ℤ : Type 0 where
  pos : ℕ → ℤ
  negsuc : ℕ → ℤ

abbrev pub lt_ℤ : ℤ → ℤ → Bool
lt_ℤ (pos a) (pos b) = ltb a b
lt_ℤ (pos a) (negsuc b) = false
lt_ℤ (negsuc a) (pos b) = true
lt_ℤ (negsuc a) (negsuc b) = ltb b a

abbrev pub add_ℕ : ℤ → ℕ → ℤ
add_ℕ (pos a) n = pos (a + n)
add_ℕ (negsuc a) n = if ltb a n then pos (n - a - 1) else negsuc (a - n)

abbrev pub eq_ℤ : ℤ → ℤ → Bool
eq_ℤ (pos a) (pos b) = a == b
eq_ℤ (pos a) (negsuc b) = false
eq_ℤ (negsuc a) (pos b) = false
eq_ℤ (negsuc a) (negsuc b) = a == b

-- `n - 1`
abbrev pub pred_ℤ : ℕ → ℤ
pred_ℤ zero = negsuc 0
pred_ℤ (suc n) = pos n
