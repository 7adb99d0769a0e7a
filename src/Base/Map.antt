-- ===== src/Base/Map.antt =====
-- Objects used as dictionaries: own properties only, in insertion order, and `undefined` for a key
-- that is not there.
use mathlib.Core.Path.{◌≡◌, refl, subst}
use mathlib.Core.Logic.{inl, inr}
use mathlib.Core.Option.{Option, none, some, some-injective}
use mathlib.Core.List.{List, [], ◌∷◌}
use native.Mathlib.Omega.{arith}
use notify_hub.Base.Tests.{if◌then◌else◌, Bool-cases}
use notify_hub.Base.Lists.{All}
use notify_hub.Base.Strings.{Text, ◌==◌, ==_iff}

abbrev pub Map {ℓ} : Type ℓ → Type ℓ
Map V = List (Text × V)

module _ {ℓ} {V : Type ℓ} where
  -- `m[k]`
  unfoldable pub lookup : Map V → Text → Option V
  lookup [] k = none
  lookup ((j, v) ∷ m) k = if j == k then some v else lookup m k

  -- `m[k] = v`
  unfoldable pub insert : Map V → Text → V → Map V
  insert [] k v = (k, v) ∷ []
  insert ((j, w) ∷ m) k v = if j == k then (j, v) ∷ m else (j, w) ∷ insert m k v

  pub lookup-insert :
      (m : Map V) (k j : Text) (v : V)
      → lookup (insert m k v) j ≡ (if k == j then some v else lookup m j)
  unfolding lookup insert
  lookup-insert [] k j v = refl
  lookup-insert ((i, w) ∷ m) k j v =
      ground (arith, ==_iff k j, ==_iff i k, ==_iff i j, lookup-insert m k j v)

-- What holds of every value holds of the one that is found.
pub lookup-All :
    {V : Type 0} (P : V → Type 0) (m : Map V) (k : Text) (v : V)
    → lookup m k ≡ some v
    → All (λ e. P e.1) m
    → P v
unfolding lookup
lookup-All P [] k v h a = absurd (cc h)
lookup-All P ((j, w) ∷ m) k v h a = elim (Bool-cases (j == k)) [
  | inl same ↦ subst P (some-injective w v (rw same at h)) a.0
  | inr other ↦ lookup-All P m k v (rw other at h) a.1
]
