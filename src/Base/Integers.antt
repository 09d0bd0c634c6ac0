-- ===== src/Base/Integers.antt =====
-- Integers over the native numbers: `i64` columns and Unix timestamps.
use mathlib.Core.Path.{◌≡◌}
use Prim.Native.Nat.{ℕ, zero, suc, ◌+◌}

-- `negsuc n` is -(n + 1).
pub data ℤ : Type 0 where
  pos : ℕ → ℤ
  negsuc : ℕ → ℤ

abbrev pub add_one : ℤ → ℤ
add_one (pos n) = pos (n + 1)
add_one (negsuc zero) = pos 0
add_one (negsuc (suc n)) = negsuc n

pub pos-injective : {m n : ℕ} → pos m ≡ pos n → m ≡ n
pos-injective h = cc
