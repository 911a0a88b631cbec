-- ===== src/Prelude/Int.antt =====
-- Python's `int`: the signed numbers over the native naturals.
use Prim.Native.Nat.{ℕ}
use mathlib.Core.Path.{◌≡◌, ap}
use mathlib.Core.Bool.{Bool, true, false}
use native.Mathlib.Omega.{arith}
use platinum_gold_backend.Prelude.Tests.{◌==◌, leb}

-- `negsuc n` is -(n + 1).
pub data ℤ : Type 0 where
  pos : ℕ → ℤ
  negsuc : ℕ → ℤ

abbrev pub lebℤ : ℤ → ℤ → Bool
lebℤ (pos a) (pos b) = leb a b
lebℤ (pos a) (negsuc b) = false
lebℤ (negsuc a) (pos b) = true
lebℤ (negsuc a) (negsuc b) = leb b a

abbrev pub eqℤ : ℤ → ℤ → Bool
eqℤ (pos a) (pos b) = a == b
eqℤ (pos a) (negsuc b) = false
eqℤ (negsuc a) (pos b) = false
eqℤ (negsuc a) (negsuc b) = a == b

pub eqℤ-eq : (a b : ℤ) → eqℤ a b ≡ true → a ≡ b
eqℤ-eq (pos a) (pos b) h = ap pos (ground arith)
eqℤ-eq (pos a) (negsuc b) h = ground arith
eqℤ-eq (negsuc a) (pos b) h = ground arith
eqℤ-eq (negsuc a) (negsuc b) h = ap negsuc (ground arith)

pub eqℤ_refl : (a : ℤ) → eqℤ a a ≡ true
eqℤ_refl (pos a) = ground arith
eqℤ_refl (negsuc a) = ground arith
