-- ===== src/Prelude/Int.antt =====
-- Signed integers over the native numbers: only what the program does with the numbers of a
-- status report or an alarm code.
use Prim.Native.Nat.{ℕ, zero, suc, ◌+◌, ◌-◌, max}
use mathlib.Core.Bool.{Bool, true, false}

-- `negsuc n` is -(n + 1).
pub data ℤ : Type 0 where
  pos : ℕ → ℤ
  negsuc : ℕ → ℤ

-- z > 0
abbrev pub is_positive : ℤ → Bool
is_positive (pos zero) = false
is_positive (pos (suc n)) = true
is_positive (negsuc n) = false

-- max(c, z), for c ≥ 0
abbrev pub max_int : ℕ → ℤ → ℕ
max_int c (pos n) = max c n
max_int c (negsuc n) = c

-- c - z, where z ≤ c
abbrev pub gap : ℕ → ℤ → ℕ
gap c (pos n) = c - n
gap c (negsuc n) = c + suc n
