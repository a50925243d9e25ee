-- ===== src/Prelude/Int.antt =====
-- C's `int` where the program uses it for results: an errno, 0, or a negative code of its own.
use mathlib.Core.Bool.{Bool, true, false}
use mathlib.Core.Path.{◌≡◌}
use native.Mathlib.Omega.{arith}
use Prim.Native.Nat.{ℕ}
use ustevent.Prelude.Tests.{◌==◌, ltb}

-- `negsuc n` is -(n + 1).
pub data ℤ : Type 0 where
  pos : ℕ → ℤ
  negsuc : ℕ → ℤ

infix 50 ◌==ℤ◌
abbrev pub ◌==ℤ◌ : ℤ → ℤ → Bool
pos a ==ℤ pos b = a == b
negsuc a ==ℤ negsuc b = a == b
_ ==ℤ _ = false

-- A number used as a condition: it is not 0.
abbrev pub is_error : ℤ → Bool
is_error (pos n) = ltb 0 n
is_error (negsuc n) = true

-- `timeout > 0`.
abbrev pub is_positive : ℤ → Bool
is_positive (pos n) = ltb 0 n
is_positive (negsuc n) = false

pub ==ℤ→eq : (a b : ℤ) → (a ==ℤ b) ≡ true → a ≡ b
==ℤ→eq (pos a) (pos b) h = ground arith
==ℤ→eq (pos a) (negsuc b) h = ground arith
==ℤ→eq (negsuc a) (pos b) h = ground arith
==ℤ→eq (negsuc a) (negsuc b) h = ground arith
