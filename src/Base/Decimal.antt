-- ===== src/Base/Decimal.antt =====
-- The number that decimal digits spell.
use Prim.Native.Nat.{ℕ, zero, suc, ◌+◌, ◌-◌, ◌*◌, ◌/◌, ◌%◌, ◌<◌}
use mathlib.Core.Path.{◌≡◌, ap, ◌∙◌}
use mathlib.Core.Logic.{inl, inr}
use mathlib.Core.List.{[], ◌∷◌}
use native.Mathlib.Omega.{arith}
use notify_hub.Base.Tests.{ltb, ltb-false→le, Bool-cases}
use notify_hub.Base.Strings.{Text, decimal, digits_from}

-- The number that digits spell after `n`.
abbrev pub number : ℕ → Text → ℕ
number n [] = n
number n (c ∷ s) = number (n * 10 + (c - 48)) s

number-digits_from :
    (fuel n : ℕ) (out : Text) → n < fuel → number 0 (digits_from fuel n out) ≡ number n out
unfolding digits_from
number-digits_from zero n out h = absurd (omega arith)
number-digits_from (suc fuel) n out h = elim (Bool-cases (ltb n 10)) [
  | inl small ↦ rw (small, digits_from) (ap (λ m. number m out) (omega arith))
  | inr large ↦
      let big = ltb-false→le n 10 large in
      rw (large, digits_from)
        (number-digits_from fuel (n / 10) ((48 + n % 10) ∷ out) (omega arith)
          ∙ ap (λ m. number m out) (omega arith))
]

-- The digits of a number spell that number.
pub number-decimal : (n : ℕ) → number 0 (decimal n) ≡ n
unfolding decimal
number-decimal n = number-digits_from (suc n) n [] (omega arith)
