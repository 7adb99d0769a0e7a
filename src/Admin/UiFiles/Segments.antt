-- ===== src/Admin/UiFiles/Segments.antt =====
-- What `resolve` of src/admin/static-ui-files.ts gives is a list of segments.
use notify_hub.Base.{
  ℕ, false, List, [], ◌∷◌, ◌++◌, any, Text, lit, ◌==◌, eqb, split, split_from, starts_with,
  is_empty, ◌≡◌, ◌≢◌, refl, inl, inr, All, All-append, arith, Bool-cases,
}
use notify_hub.Admin.UiFiles.{resolve, enter, enter_all, parent}

abbrev pub HasNoSlash : Text → Type 0
HasNoSlash s = any (λ c. eqb c 47) s ≡ false

-- A segment of a resolved path.
abbrev pub IsSegment : Text → Type 0
IsSegment s = (s ≢ []) × HasNoSlash s

any-concat : (s : Text) (c : ℕ) → HasNoSlash s → eqb c 47 ≡ false → HasNoSlash (s ++ c ∷ [])
any-concat [] c h e = ground arith
any-concat (d ∷ s) c h e = ground (arith, any-concat s c)

split_from-HasNoSlash :
    (seen s : Text) → HasNoSlash seen → All HasNoSlash (split_from (47 ∷ []) 0 seen s)
unfolding split_from starts_with
split_from-HasNoSlash seen [] h = (h, tt)
split_from-HasNoSlash seen (c ∷ s) h = elim (Bool-cases (eqb c 47)) [
  | inl slash ↦ rw slash (h, split_from-HasNoSlash [] s refl)
  | inr other ↦ rw other (split_from-HasNoSlash (seen ++ c ∷ []) s (any-concat seen c h other))
]

parent-IsSegment : (at : List Text) → All IsSegment at → All IsSegment (parent at)
unfolding parent
parent-IsSegment [] h = tt
parent-IsSegment (s ∷ []) h = tt
parent-IsSegment (s ∷ t ∷ rest) h = (h.0, parent-IsSegment (t ∷ rest) h.1)

enter-IsSegment :
    (at : List Text) (s : Text) → All IsSegment at → HasNoSlash s → All IsSegment (enter at s)
unfolding enter is_empty
enter-IsSegment at [] h k = h
enter-IsSegment at (c ∷ s) h k = elim (Bool-cases ((c ∷ s) == lit ".")) [
  | inl here ↦ rw here h
  | inr elsewhere ↦ elim (Bool-cases ((c ∷ s) == lit "..")) [
    | inl up ↦ rw (elsewhere) (rw up (parent-IsSegment at h))
    | inr down ↦
        rw elsewhere (rw down (All-append IsSegment at ((c ∷ s) ∷ []) h (((λ e. cc e), k), tt)))
  ]
]

enter_all-IsSegment :
    (at segments : List Text)
    → All IsSegment at
    → All HasNoSlash segments
    → All IsSegment (enter_all at segments)
unfolding enter_all
enter_all-IsSegment at [] h k = h
enter_all-IsSegment at (s ∷ segments) h k =
    enter_all-IsSegment (enter at s) segments (enter-IsSegment at s h k.0) k.1

pub resolve-IsSegment :
    (root : List Text) (relative : Text)
    → All IsSegment root
    → All IsSegment (resolve root relative)
unfolding resolve split lit
resolve-IsSegment root relative h =
    let pieces = split_from-HasNoSlash [] relative refl in
    elim (Bool-cases (starts_with relative (lit "/"))) [
      | inl absolute ↦ rw absolute (enter_all-IsSegment [] _ tt pieces)
      | inr below ↦ rw below (enter_all-IsSegment root _ h pieces)
    ]
