-- ===== src/Hook/Wording/Bounds.antt =====
-- The lengths of the texts.
use mathlib.Core.List.{reverse, reverse_aux}
use notify_hub.Base.{
  ℕ, ◌+◌, ◌-◌, ◌≤◌, Bool, Option, none, some, [], ◌∷◌, map, split, trim, take, length,
  length-append, length-take-le, Text, lit, drop_while, drop_while_end, is_space, leb, leb→le, ◌≡◌,
  arith, Bool-cases, inl, inr,
}
use notify_hub.Hook.Wording.{cap_length, extract_headline, headline_of, first_line, is_markdown}

length-reverse_aux : (s t : Text) → length (reverse_aux s t) ≡ length s + length t
length-reverse_aux [] t = omega arith
length-reverse_aux (c ∷ s) t = omega (arith, length-reverse_aux s (c ∷ t))

length-reverse : (s : Text) → length (reverse s) ≡ length s
length-reverse s = omega (arith, length-reverse_aux s [])

length-drop_while : (p : ℕ → Bool) (s : Text) → length (drop_while p s) ≤ length s
unfolding drop_while
length-drop_while p [] = omega arith
length-drop_while p (c ∷ s) = ground (arith, length-drop_while p s)

length-drop_while_end : (p : ℕ → Bool) (s : Text) → length (drop_while_end p s) ≤ length s
unfolding drop_while_end
length-drop_while_end p s = omega (
  arith,
  length-reverse (drop_while p (reverse s)),
  length-drop_while p (reverse s),
  length-reverse s,
)

-- A text that is cut to a length of at least one has at most that length.
pub length-cap_length : (text : Text) (max : ℕ) → 1 ≤ max → length (cap_length text max) ≤ max
unfolding cap_length lit
length-cap_length text max h = elim (Bool-cases (leb (length text) max)) [
  | inl fits ↦ rw fits (leb→le (length text) max fits)
  | inr long ↦
      let kept = drop_while_end is_space (take (max - 1) text) in
      rw long (
        omega (
          arith,
          length-append kept (lit "…"),
          length-drop_while_end is_space (take (max - 1) text),
          length-take-le (max - 1) text,
        ))
]

length-headline_of : (line : Option Text) → length (headline_of line) ≤ 140
unfolding headline_of
length-headline_of none = omega arith
length-headline_of (some line) =
    length-cap_length (trim (drop_while is_markdown line)) 140 (omega arith)

pub length-extract_headline : (text : Option Text) → length (extract_headline text) ≤ 140
unfolding extract_headline
length-extract_headline none = omega arith
length-extract_headline (some text) =
    length-headline_of (first_line (map trim (split text (lit "\n"))))
