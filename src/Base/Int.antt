-- ===== src/Base/Int.antt =====
-- Signed differences: `negsuc n` is -(n + 1).
use Prim.Native.Nat.{ℕ, suc, ◌+◌, ◌-◌}
use mathlib.Core.Bool.{Bool, true, false}
use notify_hub.Base.Tests.{leb, ltb, eqb, if◌then◌else◌}

pub data ℤ : Type 0 where
  pos : ℕ → ℤ
  negsuc : ℕ → ℤ

-- a - b, as an integer.
abbrev pub sub_ℕ : ℕ → ℕ → ℤ
sub_ℕ a b = if leb b a then pos (a - b) else negsuc (b - a - 1)

-- `m - z`
abbrev pub minus : ℕ → ℤ → ℤ
minus m (pos n) = sub_ℕ m n
minus m (negsuc n) = pos (m + suc n)

-- `a > b`
abbrev pub gt_ℤ : ℤ → ℤ → Bool
gt_ℤ (pos m) (pos n) = ltb n m
gt_ℤ (pos m) (negsuc n) = true
gt_ℤ (negsuc m) (pos n) = false
gt_ℤ (negsuc m) (negsuc n) = ltb m n

-- `a === b`
abbrev pub eq_ℤ : ℤ → ℤ → Bool
eq_ℤ (pos m) (pos n) = eqb m n
eq_ℤ (negsuc m) (negsuc n) = eqb m n
eq_ℤ _ _ = false
