-- ===== src/Admin/UiFiles/Inside.antt =====
-- The guard of src/admin/static-ui-files.ts compares texts; what it decides is about segments.
use mathlib.Core.Path.{subst}
use notify_hub.Base.{
  true, false, List, [], ◌∷◌, ◌++◌, Text, lit, ◌==◌, ==_iff, ==_refl, starts_with, ◌≡◌, ◌≢◌, refl,
  sym, ap, ◌∙◌, ◌⊎◌, inl, inr, All, arith, Bool-cases, append_assoc, append-nil,
}
use notify_hub.Ports.{Outcome}
use notify_hub.Admin.UiFiles.Segments.{HasNoSlash, IsSegment, resolve-IsSegment}
use notify_hub.Admin.UiFiles.{
  file_reply, relative_of, slashed, path_text, is_inside, resolve, forbidden, get_ui_file,
}

-- The file lies in the tree under the root.
abbrev pub IsUnder : List Text → List Text → Type 0
IsUnder root file = (rest : List Text) × (file ≡ root ++ rest)

slashed-append : (a b : List Text) → slashed (a ++ b) ≡ slashed a ++ slashed b
unfolding slashed
slashed-append [] b = refl
slashed-append (s ∷ a) b =
    ap (λ r. 47 ∷ (s ++ r)) (slashed-append a b)
    ∙ ap (λ r. 47 ∷ r) (sym (append_assoc s (slashed a) (slashed b)))

starts_with-append : (s t : Text) → starts_with (s ++ t) s ≡ true
unfolding starts_with
starts_with-append [] [] = refl
starts_with-append [] (c ∷ t) = refl
starts_with-append (c ∷ s) t = ground (arith, starts_with-append s t)

-- A text that ends here or goes on with a slash.
abbrev IsCut : Text → Type 0
IsCut [] = Unit
IsCut (c ∷ s) = c ≡ 47

slashed-IsCut : (a : List Text) → IsCut (slashed a)
unfolding slashed
slashed-IsCut [] = tt
slashed-IsCut (s ∷ a) = refl

-- Up to the next slash, a segment is compared with a segment.
starts_with-segment :
    (s r x y : Text)
    → HasNoSlash s
    → HasNoSlash r
    → IsCut x
    → starts_with (s ++ x) (r ++ 47 ∷ y) ≡ true
    → (s ≡ r) × (starts_with x (47 ∷ y) ≡ true)
unfolding starts_with
starts_with-segment [] [] x y hs hr cut e = (refl, e)
starts_with-segment [] (c ∷ r) [] y hs hr cut e = absurd (cc e)
starts_with-segment [] (c ∷ r) (d ∷ x) y hs hr cut e = absurd (ground arith)
starts_with-segment (c ∷ s) [] x y hs hr cut e = absurd (ground arith)
starts_with-segment (c ∷ s) (d ∷ r) x y hs hr cut e =
    let (same, rest) =
      starts_with-segment s r x y (ground arith) (ground arith) cut (ground arith) in
    (ground arith, rest)

-- What follows the segments is cut off by a slash.
slash_after : (a : List Text) → (y : Text) × (slashed a ++ 47 ∷ [] ≡ 47 ∷ y)
unfolding slashed
slash_after [] = ([], refl)
slash_after (s ∷ a) = ((s ++ slashed a) ++ 47 ∷ [], refl)

starts_with-slashed :
    (root file : List Text)
    → All IsSegment root
    → All IsSegment file
    → starts_with (slashed file) (slashed root ++ 47 ∷ []) ≡ true
    → IsUnder root file
unfolding slashed starts_with
starts_with-slashed [] file hr hf e = (file, refl)
starts_with-slashed (r ∷ root) [] hr hf e = absurd (cc e)
starts_with-slashed (r ∷ root) (s ∷ file) hr hf e =
    let (y, cut) = slash_after root in
    let inner : starts_with (s ++ slashed file) ((r ++ slashed root) ++ 47 ∷ []) ≡ true = e in
    let (same, later) =
      starts_with-segment s r (slashed file) y hf.0.1 hr.0.1 (slashed-IsCut file)
        (rw (append_assoc r (slashed root) (47 ∷ []), cut) at inner) in
    let (rest, under) =
      starts_with-slashed root file hr.1 hf.1
        (subst (λ t. starts_with (slashed file) t ≡ true) (sym cut) later) in
    (rest, ap (λ x. x ∷ file) same ∙ ap (λ f. r ∷ f) under)

slashed-segment :
    (s r x y : Text)
    → HasNoSlash s
    → HasNoSlash r
    → IsCut x
    → IsCut y
    → s ++ x ≡ r ++ y
    → (s ≡ r) × (x ≡ y)
slashed-segment [] [] x y hs hr cx cy e = (refl, e)
slashed-segment [] (c ∷ r) [] y hs hr cx cy e = absurd (cc e)
slashed-segment [] (c ∷ r) (d ∷ x) y hs hr cx cy e = absurd (ground arith)
slashed-segment (c ∷ s) [] x [] hs hr cx cy e = absurd (cc e)
slashed-segment (c ∷ s) [] x (d ∷ y) hs hr cx cy e = absurd (ground arith)
slashed-segment (c ∷ s) (d ∷ r) x y hs hr cx cy e =
    let (same, tails) =
      slashed-segment s r x y (ground arith) (ground arith) cx cy (ground arith) in
    (ground arith, tails)

slashed-injective :
    (root file : List Text)
    → All IsSegment root
    → All IsSegment file
    → slashed file ≡ slashed root
    → file ≡ root
unfolding slashed
slashed-injective [] [] hr hf e = refl
slashed-injective [] (s ∷ file) hr hf e = absurd (cc e)
slashed-injective (r ∷ root) [] hr hf e = absurd (cc e)
slashed-injective (r ∷ root) (s ∷ file) hr hf e =
    let (same, tails) =
      slashed-segment s r (slashed file) (slashed root) hf.0.1 hr.0.1 (slashed-IsCut file)
        (slashed-IsCut root) (ground arith) in
    rw (same, slashed-injective root file hr.1 hf.1 tails) refl

starts_with-under :
    (a : List Text) (t : Text) (rest : List Text)
    → starts_with (slashed (a ++ t ∷ rest)) (slashed a ++ 47 ∷ []) ≡ true
unfolding slashed
starts_with-under a t rest =
    rw (slashed-append a (t ∷ rest) ∙ sym (append_assoc (slashed a) (47 ∷ []) (t ++ slashed rest)))
      (starts_with-append (slashed a ++ 47 ∷ []) (t ++ slashed rest))

root-is_inside : (r : Text) (root : List Text) → (r ≢ []) → is_inside (r ∷ root) [] ≡ false
unfolding is_inside path_text slashed starts_with ◌==◌ lit
root-is_inside [] root ne = absurd (ne refl)
root-is_inside (c ∷ r) root ne = refl

is_inside-under :
    (r : Text) (root rest : List Text) → is_inside (r ∷ root) ((r ∷ root) ++ rest) ≡ true
unfolding is_inside path_text lit
is_inside-under r root [] = rw (append-nil root) (rw (==_refl (slashed (r ∷ root))) refl)
is_inside-under r root (t ∷ rest) = ground (arith, starts_with-under (r ∷ root) t rest)

is_inside-IsUnder :
    (r : Text) (root file : List Text)
    → All IsSegment (r ∷ root)
    → All IsSegment file
    → is_inside (r ∷ root) file ≡ true
    → IsUnder (r ∷ root) file
unfolding is_inside path_text lit
is_inside-IsUnder r root [] hr hf e = absurd (cc (root-is_inside r root hr.0.0, e))
is_inside-IsUnder r root (s ∷ file) hr hf e =
    elim (Bool-cases (slashed (s ∷ file) == slashed (r ∷ root))) [
      | inl same ↦ (
        [],
        slashed-injective (r ∷ root) (s ∷ file) hr hf ((==_iff _ _).0 same)
            ∙ sym (append-nil (r ∷ root)),
      )
      | inr other ↦ starts_with-slashed (r ∷ root) (s ∷ file) hr hf (rw other at e)
    ]

-- Where the root is not `/` and its segments are what `resolve` gives, and whatever is requested,
-- `..` included: either the resolved path lies in the tree under the root, and the reply is that
-- file, or 404 when it cannot be read; or it does not lie there, and the reply is 403.
pub get_ui_file_lem :
    (extension : Text → Text) (read_file : Text → Outcome Text) (r : Text) (root : List Text)
    (requested : Text)
    → All IsSegment (r ∷ root)
    → let file = resolve (r ∷ root) (relative_of requested) in
      let reply = get_ui_file extension read_file (r ∷ root) requested in
      (IsUnder (r ∷ root) file
        × (reply ≡ file_reply extension (path_text file) (read_file (path_text file))))
      ⊎ ((¬ IsUnder (r ∷ root) file) × (reply ≡ forbidden))
unfolding get_ui_file
get_ui_file_lem extension read_file r root requested h =
    let file = resolve (r ∷ root) (relative_of requested) in
    let clean = resolve-IsSegment (r ∷ root) (relative_of requested) h in
    elim (Bool-cases (is_inside (r ∷ root) file)) [
      | inl inside ↦ inl (is_inside-IsUnder r root file h clean inside, rw inside refl)
      | inr outside ↦ inr (
        λ (rest, e). absurd (
            cc (
              subst (λ f. is_inside (r ∷ root) f ≡ true) (sym e) (is_inside-under r root rest),
              outside,
            )),
        rw outside refl,
      )
    ]
