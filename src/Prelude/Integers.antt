-- ===== src/Prelude/Integers.antt =====
-- Integers over the native numbers, for Go's `int` and durations, and their comparison with a length.
use Prim.Native.Nat.{ℕ, ◌≤◌}
use mathlib.Core.Bool.{Bool, true}
use kuberhealthy.Prelude.Tests.{leb, ltb, leb→le}
use mathlib.Core.Path.{◌≡◌}

-- `negsuc n` is -(n + 1).
pub data ℤ : Type 0 where
  pos negsuc : ℕ → ℤ

-- `z <= n`
abbrev pub leb_length : ℤ → ℕ → Bool
leb_length (pos m) n = leb m n
leb_length (negsuc m) n = true

-- `z < n`
abbrev pub ltb_length : ℤ → ℕ → Bool
ltb_length (pos m) n = ltb m n
ltb_length (negsuc m) n = true

abbrev pub IsAtMost : ℤ → ℕ → Type 0
IsAtMost (pos m) n = m ≤ n
IsAtMost (negsuc m) n = Unit

pub leb_length-IsAtMost : (z : ℤ) (n : ℕ) → leb_length z n ≡ true → IsAtMost z n
leb_length-IsAtMost (pos m) n h = leb→le m n h
leb_length-IsAtMost (negsuc m) n h = tt
