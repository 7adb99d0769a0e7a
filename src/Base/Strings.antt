-- ===== src/Base/Strings.antt =====
-- JavaScript strings: sequences of UTF-16 code units, with the operations that the program calls.
use Prim.Native.Nat.{ℕ, zero, suc, ◌+◌, ◌-◌, ◌/◌, ◌%◌}
use Prim.Native.Char.{code}
use Prim.Native.String.{String}
use mathlib.Core.Path.{◌≡◌, refl}
use mathlib.Core.Logic.{◌↔◌}
use mathlib.Core.Bool.{Bool, true, false, ◌&&◌, ◌||◌}
use mathlib.Core.List.{List, [], ◌∷◌, ◌++◌, reverse}
use native.Mathlib.Omega.{arith}
use notify_hub.Base.Tests.{ltb, leb, eqb, if◌then◌else◌}
use notify_hub.Base.Lists.{length, Mem}

abbrev pub Text : Type 0
Text = List ℕ

-- The code units of a literal; a code point past 0xFFFF is a surrogate pair.
unfoldable pub lit : String → Text
lit String.[] = []
lit (String.◌∷◌ c s) =
    let u = code c in
    let rest = lit s in
    if ltb u 0x10000
    then u ∷ rest
    else (0xD800 + (u - 0x10000) / 0x400) ∷ (0xDC00 + (u - 0x10000) % 0x400) ∷ rest

infix 50 ◌==◌
unfoldable pub ◌==◌ : Text → Text → Bool
[] == [] = true
(a ∷ s) == (b ∷ t) = eqb a b && s == t
_ == _ = false

pub ==_refl : (s : Text) → (s == s) ≡ true
unfolding ◌==◌
==_refl [] = refl
==_refl (a ∷ s) = ground (arith, ==_refl s)

pub eq_of_== : (s t : Text) → (s == t) ≡ true → s ≡ t
unfolding ◌==◌
eq_of_== [] [] h = refl
eq_of_== (a ∷ s) (b ∷ t) h = ground (arith, eq_of_== s t)
eq_of_== [] (b ∷ t) h = cc
eq_of_== (a ∷ s) [] h = cc

pub ==_iff : (s t : Text) → ((s == t) ≡ true) ↔ (s ≡ t)
==_iff s t = (eq_of_== s t, λ e. rw e (==_refl t))

-- `new Set(xs).has(x)`
unfoldable pub has : List Text → Text → Bool
has [] x = false
has (y ∷ ys) x = x == y || has ys x

pub has_iff : (xs : List Text) (x : Text) → (has xs x ≡ true) ↔ Mem x xs
unfolding has
has_iff [] x = ground arith
has_iff (y ∷ ys) x = ground (arith, ==_iff x y, has_iff ys x)

-- The white space and line terminators that `trim` removes and `\s` matches.
unfoldable pub is_space : ℕ → Bool
is_space c =
    (leb 9 c && leb c 13)
    || eqb c 32
    || eqb c 0xA0
    || eqb c 0x1680
    || (leb 0x2000 c && leb c 0x200A)
    || eqb c 0x2028
    || eqb c 0x2029
    || eqb c 0x202F
    || eqb c 0x205F
    || eqb c 0x3000
    || eqb c 0xFEFF

-- Drops the longest run at the front that passes the test.
unfoldable pub drop_while : (ℕ → Bool) → Text → Text
drop_while p [] = []
drop_while p (c ∷ s) = let rest = drop_while p s in if p c then rest else c ∷ s

unfoldable pub drop_while_end : (ℕ → Bool) → Text → Text
unfolding drop_while
drop_while_end p s = reverse (drop_while p (reverse s))

unfoldable pub trim : Text → Text
unfolding drop_while_end is_space
trim s = drop_while_end is_space (drop_while is_space s)

unfoldable pub is_empty : Text → Bool
is_empty [] = true
is_empty (c ∷ s) = false

-- `s.startsWith(t)`
unfoldable pub starts_with : Text → Text → Bool
starts_with s [] = true
starts_with [] (b ∷ t) = false
starts_with (a ∷ s) (b ∷ t) = eqb a b && starts_with s t

-- `s.split(sep)` at a separator that is not empty, from the left without overlaps: `seen` is the
-- current piece and `skipped` counts the units left of a separator that was just found.
unfoldable pub split_from : Text → ℕ → Text → Text → List Text
split_from sep skipped seen [] = seen ∷ []
split_from sep (suc k) seen (c ∷ s) = split_from sep k seen s
split_from sep zero seen (c ∷ s) =
    let found = seen ∷ split_from sep (length sep - 1) [] s in
    let longer = split_from sep zero (seen ++ c ∷ []) s in
    if starts_with (c ∷ s) sep then found else longer

unfoldable pub split : Text → Text → List Text
unfolding split_from starts_with
split s sep = split_from sep 0 [] s

-- `pieces.join(sep)`
unfoldable pub join : List Text → Text → Text
join [] sep = []
join (s ∷ []) sep = s
join (s ∷ t ∷ rest) sep = s ++ (sep ++ join (t ∷ rest) sep)

-- `s.includes(t)`
unfoldable pub includes : Text → Text → Bool
unfolding starts_with
includes [] t = starts_with [] t
includes (c ∷ s) t = starts_with (c ∷ s) t || includes s t

-- The decimal digits of a number; `suc n` rounds are enough, since each divides by ten.
unfoldable pub digits_from : ℕ → ℕ → Text → Text
digits_from zero n out = out
digits_from (suc fuel) n out = elim (ltb n 10) [
  | true ↦ (48 + n) ∷ out
  | false ↦ digits_from fuel (n / 10) ((48 + n % 10) ∷ out)
]

unfoldable pub decimal : ℕ → Text
unfolding digits_from
decimal n = digits_from (suc n) n []
