-- ===== src/Base/Slugs.antt =====
-- The slug that `slugify` of src/db/seed-from-env.ts and of src/admin/ui/admin-instance-id.js makes of a text
-- in lower case.
use Prim.Native.Nat.{ℕ}
use mathlib.Core.Path.{◌≡◌, refl, ap, subst, sym, ◌∙◌}
use mathlib.Core.Logic.{inl, inr}
use mathlib.Core.Bool.{Bool, true, false, ◌&&◌, ◌||◌, not}
use mathlib.Core.List.{[], ◌∷◌, ◌++◌, reverse, reverse_aux, reverse-reverse, reverse-append}
use native.Mathlib.Omega.{arith}
use notify_hub.Base.Tests.{if◌then◌else◌, leb, eqb, Bool-cases}
use notify_hub.Base.Lists.{every, All}
use notify_hub.Base.Strings.{Text, drop_while, drop_while_end, trim}

abbrev pub is_slug_unit : ℕ → Bool
is_slug_unit c = (leb b'a' c && leb c b'z') || (leb b'0' c && leb c b'9')

abbrev pub is_hyphen : ℕ → Bool
is_hyphen c = eqb c b'-'

-- `.replace(/[^a-z0-9]+/g, '-')`
unfoldable pub hyphenate_from : Bool → Text → Text
hyphenate_from inside [] = []
hyphenate_from inside (c ∷ s) =
    let rest = hyphenate_from (not (is_slug_unit c)) s in
    if is_slug_unit c then c ∷ rest else if inside then rest else b'-' ∷ rest

-- `.trim().replace(/[^a-z0-9]+/g, '-').replace(/^-+|-+$/g, '')`
unfoldable pub slug_of : Text → Text
unfolding hyphenate_from drop_while drop_while_end trim
slug_of s = drop_while_end is_hyphen (drop_while is_hyphen (hyphenate_from false (trim s)))

abbrev pub is_slug_rest : ℕ → Bool
is_slug_rest c = is_slug_unit c || is_hyphen c

abbrev IsHyphenated : Text → Type 0
IsHyphenated s = All (λ c. is_slug_rest c ≡ true) s

hyphenate-step :
    (unit inside : Bool) (c : ℕ) (rest : Text)
    → is_slug_unit c ≡ unit
    → IsHyphenated rest
    → IsHyphenated (if unit then c ∷ rest else if inside then rest else b'-' ∷ rest)
hyphenate-step true inside c rest e h = (ap (λ b. b || is_hyphen c) e, h)
hyphenate-step false true c rest e h = h
hyphenate-step false false c rest e h = (refl, h)

hyphenate_from-IsHyphenated : (inside : Bool) (s : Text) → IsHyphenated (hyphenate_from inside s)
unfolding hyphenate_from
hyphenate_from-IsHyphenated inside [] = tt
hyphenate_from-IsHyphenated inside (c ∷ s) =
    hyphenate-step (is_slug_unit c) inside c (hyphenate_from (not (is_slug_unit c)) s) refl
      (hyphenate_from-IsHyphenated (not (is_slug_unit c)) s)

drop_while-IsHyphenated : (p : ℕ → Bool) (s : Text) → IsHyphenated s → IsHyphenated (drop_while p s)
unfolding drop_while
drop_while-IsHyphenated p [] h = tt
drop_while-IsHyphenated p (c ∷ s) h = elim (Bool-cases (p c)) [
  | inl drops ↦ rw drops (drop_while-IsHyphenated p s h.1)
  | inr keeps ↦ rw keeps h
]

reverse_aux-IsHyphenated :
    (s seen : Text) → IsHyphenated s → IsHyphenated seen → IsHyphenated (reverse_aux s seen)
reverse_aux-IsHyphenated [] seen h k = k
reverse_aux-IsHyphenated (c ∷ s) seen h k = reverse_aux-IsHyphenated s (c ∷ seen) h.1 (h.0, k)

-- The first unit, if there is one, is no hyphen.
abbrev StartsWell : Text → Type 0
StartsWell [] = Unit
StartsWell (c ∷ s) = is_hyphen c ≡ false

drop_while-StartsWell : (s : Text) → StartsWell (drop_while is_hyphen s)
unfolding drop_while
drop_while-StartsWell [] = tt
drop_while-StartsWell (c ∷ s) = elim (Bool-cases (is_hyphen c)) [
  | inl drops ↦ rw drops (drop_while-StartsWell s)
  | inr keeps ↦ rw keeps keeps
]

-- What is dropped, and what is left.
drop_while-split : (p : ℕ → Bool) (s : Text) → (dropped : Text) × (dropped ++ drop_while p s ≡ s)
unfolding drop_while
drop_while-split p [] = ([], refl)
drop_while-split p (c ∷ s) =
    let (dropped, e) = drop_while-split p s in
    elim (Bool-cases (p c)) [
      | inl drops ↦ rw drops (c ∷ dropped, ap (λ l. c ∷ l) e)
      | inr keeps ↦ rw keeps ([], refl)
    ]

prefix-StartsWell : (s t : Text) → StartsWell (s ++ t) → StartsWell s
prefix-StartsWell [] t h = tt
prefix-StartsWell (c ∷ s) t h = h

drop_while_end-StartsWell : (s : Text) → StartsWell s → StartsWell (drop_while_end is_hyphen s)
unfolding drop_while_end
drop_while_end-StartsWell s h =
    let (dropped, e) = drop_while-split is_hyphen (reverse s) in
    let left = drop_while is_hyphen (reverse s) in
    prefix-StartsWell (reverse left) (reverse dropped) (
      subst StartsWell (sym (reverse-reverse s) ∙ ap reverse (sym e) ∙ reverse-append dropped left)
        h)

every-All : (s : Text) → IsHyphenated s → every is_slug_rest s ≡ true
every-All [] h = refl
every-All (c ∷ s) h = ground (arith, h.0, every-All s h.1)

-- `/^[a-z0-9][a-z0-9-]*$/`, or nothing.
abbrev pub IsSlugged : Text → Type 0
IsSlugged [] = Unit
IsSlugged (c ∷ s) = (is_slug_unit c ≡ true) × (every is_slug_rest s ≡ true)

slugged : (s : Text) → StartsWell s → IsHyphenated s → IsSlugged s
slugged [] well h = tt
slugged (c ∷ s) well h = (ground (arith, well, h.0), every-All s h.1)

pub slug_of-IsSlugged : (s : Text) → IsSlugged (slug_of s)
unfolding slug_of drop_while_end
slug_of-IsSlugged s =
    let hyphenated = hyphenate_from false (trim s) in
    let started = drop_while is_hyphen hyphenated in
    let h =
      drop_while-IsHyphenated is_hyphen hyphenated (hyphenate_from-IsHyphenated false (trim s)) in
    slugged (drop_while_end is_hyphen started)
      (drop_while_end-StartsWell started (drop_while-StartsWell hyphenated))
      (reverse_aux-IsHyphenated (drop_while is_hyphen (reverse started)) []
        (drop_while-IsHyphenated is_hyphen (reverse started)
          (reverse_aux-IsHyphenated started [] h tt))
        tt)
