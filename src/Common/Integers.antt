-- ===== src/Common/Integers.antt =====
-- The C `int` as a mathematical integer, for results that may be negative.
use Prim.Native.Nat.{ℕ, zero, suc}

-- `negsuc n` is -(n + 1).
pub data ℤ : Type 0 where
  pos : ℕ → ℤ
  negsuc : ℕ → ℤ

-- `-1`, by which a search says that it found nothing.
abbrev pub minus_one : ℤ
minus_one = negsuc 0

-- `-n`
abbrev pub negate_ℕ : ℕ → ℤ
negate_ℕ zero = pos 0
negate_ℕ (suc n) = negsuc n
