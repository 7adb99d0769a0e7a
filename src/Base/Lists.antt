-- ===== src/Base/Lists.antt =====
-- Lists measured by native numbers, predicates on their elements, and Boolean quantifiers.
use Prim.Native.Nat.{ℕ, zero, suc, ◌+◌, ◌≤◌}
use mathlib.Core.Path.{◌≡◌, refl, ap, sym, subst}
use mathlib.Core.Logic.{◌↔◌, ◌⊎◌, inl, inr}
use mathlib.Core.Bool.{Bool, true, false, ◌&&◌, ◌||◌}
use mathlib.Core.Option.{Option, none, some}
use mathlib.Core.List.{List, [], ◌∷◌, ◌++◌, map}
use native.Mathlib.Omega.{arith}
use notify_hub.Base.Tests.{if◌then◌else◌, Bool-cases}

module _ {ℓ} {A : Type ℓ} where
  abbrev pub length : List A → ℕ
  length [] = 0
  length (x ∷ xs) = suc (length xs)

  abbrev pub take : ℕ → List A → List A
  take zero xs = []
  take (suc n) [] = []
  take (suc n) (x ∷ xs) = x ∷ take n xs

  abbrev pub drop : ℕ → List A → List A
  drop zero xs = xs
  drop (suc n) [] = []
  drop (suc n) (x ∷ xs) = drop n xs

  -- `xs[0]` and `xs.at(-1)`, with `undefined` as `none`.
  abbrev pub first : List A → Option A
  first [] = none
  first (x ∷ xs) = some x

  abbrev pub last : List A → Option A
  last [] = none
  last (x ∷ []) = some x
  last (x ∷ y ∷ xs) = last (y ∷ xs)

  abbrev pub filter : (A → Bool) → List A → List A
  filter p [] = []
  filter p (x ∷ xs) = let rest = filter p xs in if p x then x ∷ rest else rest

  abbrev pub any : (A → Bool) → List A → Bool
  any p [] = false
  any p (x ∷ xs) = p x || any p xs

  abbrev pub every : (A → Bool) → List A → Bool
  every p [] = true
  every p (x ∷ xs) = p x && every p xs

  pub length-append : (xs ys : List A) → length (xs ++ ys) ≡ length xs + length ys
  length-append [] ys = omega arith
  length-append (x ∷ xs) ys = omega (arith, length-append xs ys)

  pub length-take-le : (n : ℕ) (xs : List A) → length (take n xs) ≤ n
  length-take-le zero xs = omega arith
  length-take-le (suc n) [] = omega arith
  length-take-le (suc n) (x ∷ xs) = omega (arith, length-take-le n xs)

  pub length-take : (n : ℕ) (xs : List A) → n ≤ length xs → length (take n xs) ≡ n
  length-take zero xs h = refl
  length-take (suc n) [] h = omega arith
  length-take (suc n) (x ∷ xs) h = omega (arith, length-take n xs)

  pub take-append-drop : (n : ℕ) (xs : List A) → take n xs ++ drop n xs ≡ xs
  take-append-drop zero xs = refl
  take-append-drop (suc n) [] = refl
  take-append-drop (suc n) (x ∷ xs) = ap (λ r. x ∷ r) (take-append-drop n xs)

-- A predicate on every element, and one on some element, by recursion.
abbrev pub All {ℓ κ} : {A : Type ℓ} → (A → Type κ) → List A → Type κ
All P [] = Unit
All P (x ∷ xs) = P x × All P xs

abbrev pub Mem : {A : Type 0} → A → List A → Type 0
Mem a [] = ⊥
Mem a (x ∷ xs) = (a ≡ x) ⊎ Mem a xs

abbrev pub Nodup : {A : Type 0} → List A → Type 0
Nodup [] = Unit
Nodup (x ∷ xs) = ¬ Mem x xs × Nodup xs

-- `xs` is `ys` with elements left out: what is kept keeps its order.
pub data Sublist {A : Type 0} : List A → List A → Type 0 where
  nil : Sublist [] []
  skip : {x : A} {xs ys : List A} → Sublist xs ys → Sublist xs (x ∷ ys)
  keep : {x : A} {xs ys : List A} → Sublist xs ys → Sublist (x ∷ xs) (x ∷ ys)

module _ {A : Type 0} where
  pub All-append : (P : A → Type 0) (xs ys : List A) → All P xs → All P ys → All P (xs ++ ys)
  All-append P [] ys h k = k
  All-append P (x ∷ xs) ys h k = (h.0, All-append P xs ys h.1 k)

  pub All-of_mem : (P : A → Type 0) (xs : List A) → ((x : A) → Mem x xs → P x) → All P xs
  All-of_mem P [] h = tt
  All-of_mem P (x ∷ xs) h = (h x (inl refl), All-of_mem P xs (λ y m. h y (inr m)))

  pub All-mem : (P : A → Type 0) (xs : List A) {x : A} → All P xs → Mem x xs → P x
  All-mem P [] h m = absurd m
  All-mem P (y ∷ xs) h (inl e) = subst P (sym e) h.0
  All-mem P (y ∷ xs) h (inr m) = All-mem P xs h.1 m

  pub mem-append : (x : A) (xs ys : List A) → Mem x (xs ++ ys) ↔ (Mem x xs ⊎ Mem x ys)
  mem-append x [] ys = ((λ m. inr m), (λ h. ground arith))
  mem-append x (y ∷ xs) ys = ground (arith, mem-append x xs ys)

  pub mem-filter :
      (p : A → Bool) (x : A) (xs : List A) → Mem x (filter p xs) ↔ (Mem x xs × (p x ≡ true))
  mem-filter p x [] = ground arith
  mem-filter p x (y ∷ xs) = elim (Bool-cases (p y)) [
    | inl h ↦ rw h (
      λ m. elim m [
        | inl e ↦ (inl e, rw e h)
        | inr r ↦ let (a, b) = (mem-filter p x xs).0 r in (inr a, b)
      ],
      λ (m, k). elim m [ inl e ↦ inl e | inr r ↦ inr ((mem-filter p x xs).1 (r, k)) ],
    )
    | inr h ↦ rw h (
      λ r. let (a, b) = (mem-filter p x xs).0 r in (inr a, b),
      λ (m, k). elim m [ inl e ↦ cc (h, k, ap p e) | inr r ↦ (mem-filter p x xs).1 (r, k) ],
    )
  ]

  pub Sublist-mem : {xs ys : List A} (x : A) → Sublist xs ys → Mem x xs → Mem x ys
  Sublist-mem x nil m = m
  Sublist-mem x (skip s) m = inr (Sublist-mem x s m)
  Sublist-mem x (keep s) (inl e) = inl e
  Sublist-mem x (keep s) (inr m) = inr (Sublist-mem x s m)

  pub Sublist-nil : (xs : List A) → Sublist [] xs
  Sublist-nil [] = nil
  Sublist-nil (x ∷ xs) = skip (Sublist-nil xs)

  pub filter-sublist : (p : A → Bool) (xs : List A) → Sublist (filter p xs) xs
  filter-sublist p [] = nil
  filter-sublist p (x ∷ xs) = elim (Bool-cases (p x)) [
    | inl h ↦ rw h (keep (filter-sublist p xs))
    | inr h ↦ rw h (skip (filter-sublist p xs))
  ]

  pub filter-append :
      (p : A → Bool) (xs ys : List A) → filter p (xs ++ ys) ≡ filter p xs ++ filter p ys
  filter-append p [] ys = refl
  filter-append p (x ∷ xs) ys = ground (arith, filter-append p xs ys)

  pub Nodup-concat : (x : A) (xs : List A) → Nodup xs → ¬ Mem x xs → Nodup (xs ++ x ∷ [])
  Nodup-concat x [] h k = ((λ m. m), tt)
  Nodup-concat x (y ∷ xs) h k = (
    λ m. elim ((mem-append y xs (x ∷ [])).0 m) [
      | inl a ↦ h.0 a
      | inr b ↦ elim b [ inl e ↦ k (inl (sym e)) | inr n ↦ n ]
    ],
    Nodup-concat x xs h.1 (λ m. k (inr m)),
  )

  pub Nodup-filter : (p : A → Bool) (xs : List A) → Nodup xs → Nodup (filter p xs)
  Nodup-filter p [] h = tt
  Nodup-filter p (x ∷ xs) h = ground (arith, mem-filter p x xs, Nodup-filter p xs h.1)

module _ {A B : Type 0} where
  pub mem-map : (f : A → B) (x : A) (xs : List A) → Mem x xs → Mem (f x) (map f xs)
  mem-map f x [] m = absurd m
  mem-map f x (y ∷ xs) (inl e) = inl (ap f e)
  mem-map f x (y ∷ xs) (inr m) = inr (mem-map f x xs m)

  pub exists_of_mem-map :
      (f : A → B) (y : B) (xs : List A) → Mem y (map f xs) → (x : A) × Mem x xs × (f x ≡ y)
  exists_of_mem-map f y [] m = absurd m
  exists_of_mem-map f y (x ∷ xs) (inl e) = (x, inl refl, sym e)
  exists_of_mem-map f y (x ∷ xs) (inr m) =
      let (z, k, e) = exists_of_mem-map f y xs m in (z, inr k, e)
