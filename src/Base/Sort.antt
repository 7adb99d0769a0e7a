-- ===== src/Base/Sort.antt =====
-- Sorting by a Boolean order, as `ORDER BY` does.
use mathlib.Core.Path.{◌≡◌, sym}
use mathlib.Core.Logic.{◌↔◌, ◌⊎◌, inl, inr}
use mathlib.Core.Bool.{Bool, true, false, ◌&&◌, ◌||◌}
use mathlib.Core.List.{List, [], ◌∷◌}
use native.Mathlib.Omega.{arith}
use Prim.Native.Nat.{ℕ, ◌+◌, ◌-◌}
use notify_hub.Base.Tests.{ltb, eqb, if◌then◌else◌, Bool-cases}
use notify_hub.Base.Lists.{Mem, Nodup}
use notify_hub.Base.Strings.{Text}

-- The rank of a code unit in the order of code points, which is the order of SQLite's BINARY
-- collation on UTF-8: surrogates stand for the code points past 0xFFFF.
rank : ℕ → ℕ
rank u = if ltb u 0xD800 then u else if ltb u 0xE000 then u + 0x2000 else u - 0x800

unfoldable pub text_le : Text → Text → Bool
unfolding rank
text_le [] t = true
text_le (a ∷ s) [] = false
text_le (a ∷ s) (b ∷ t) = ltb (rank a) (rank b) || (eqb (rank a) (rank b) && text_le s t)

module _ {A : Type 0} (le : A → A → Bool) where
  unfoldable pub insert_sorted : A → List A → List A
  insert_sorted x [] = x ∷ []
  insert_sorted x (y ∷ ys) =
      let later = insert_sorted x ys in if le x y then x ∷ y ∷ ys else y ∷ later

  unfoldable pub sort : List A → List A
  unfolding insert_sorted
  sort [] = []
  sort (x ∷ xs) = insert_sorted x (sort xs)

  mem-insert_sorted : (z x : A) (ys : List A) → Mem z (insert_sorted x ys) ↔ ((z ≡ x) ⊎ Mem z ys)
  unfolding insert_sorted
  mem-insert_sorted z x [] = ground arith
  mem-insert_sorted z x (y ∷ ys) = ground (arith, mem-insert_sorted z x ys)

  -- Sorting keeps the elements.
  pub mem-sort : (z : A) (xs : List A) → Mem z (sort xs) ↔ Mem z xs
  unfolding sort
  mem-sort z [] = ground arith
  mem-sort z (x ∷ xs) = ground (arith, mem-insert_sorted z x (sort xs), mem-sort z xs)

  Nodup-insert_sorted : (x : A) (ys : List A) → ¬ Mem x ys → Nodup ys → Nodup (insert_sorted x ys)
  unfolding insert_sorted
  Nodup-insert_sorted x [] h k = (λ m. m, tt)
  Nodup-insert_sorted x (y ∷ ys) h k = elim (Bool-cases (le x y)) [
    | inl t ↦ rw t (h, k)
    | inr f ↦ rw f (
      λ m. elim ((mem-insert_sorted y x ys).0 m) [ inl e ↦ h (inl (sym e)) | inr r ↦ k.0 r ],
      Nodup-insert_sorted x ys (λ m. h (inr m)) k.1,
    )
  ]

  pub Nodup-sort : (xs : List A) → Nodup xs → Nodup (sort xs)
  unfolding sort
  Nodup-sort [] h = tt
  Nodup-sort (x ∷ xs) h =
      Nodup-insert_sorted x (sort xs) (λ m. h.0 ((mem-sort x xs).0 m)) (Nodup-sort xs h.1)
