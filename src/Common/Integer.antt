-- ===== src/Common/Integer.antt =====
-- Whole numbers, over the natural numbers of this library.
use code_push.Common.{ℕ, ◌+◌}

pub data ℤ : Type 0 where
  pos : ℕ → ℤ
  negsuc : ℕ → ℤ

-- `Math.abs`
abbrev pub abs : ℤ → ℕ
abs (pos n) = n
abs (negsuc n) = n + 1
