-- ===== src/Hook/Caches/Reading.antt =====
-- What the hook reads from a cache file after it wrote or deleted one.
use mathlib.Core.List.{reverse, reverse_aux, reverse-reverse}
use notify_hub.Base.{
  ℕ, zero, suc, ◌+◌, ◌/◌, ◌%◌, ◌<◌, true, false, none, some, [], ◌∷◌, ◌≡◌, refl, ap, ◌∙◌, Text,
  ◌==◌, ==_iff, Bool-cases, inl, inr, arith, if◌then◌else◌, trim, drop_while, drop_while_end,
  is_space, decimal, digits_from, ltb, ltb→lt, All,
}
use notify_hub.Base.Map.{Map, lookup, insert, lookup-insert}
use notify_hub.Hook.{Machine, HookWorld}
use notify_hub.Hook.Caches.{erase, write_file, unlink, read_file, content_at}

lookup-erase :
    (files : Map Text) (path other : Text)
    → lookup (erase files path) other ≡ (if path == other then none else lookup files other)
unfolding lookup erase
lookup-erase [] path other = ground arith
lookup-erase ((name, content) ∷ files) path other =
    ground
      (arith, ==_iff name path, ==_iff name other, ==_iff path other, lookup-erase files path other)

files-write_file :
    (m : Machine) (path content : Text) (w : HookWorld)
    → m.writable path ≡ true
    → (write_file m path content w).files ≡ insert w.files path content
unfolding write_file
files-write_file m path content w writable =
    ap (λ b. (if b then record w { files = insert w.files path content } else w).files) writable

files-unlink :
    (m : Machine) (path : Text) (w : HookWorld)
    → m.removable path ≡ true
    → (unlink m path w).files ≡ erase w.files path
unfolding unlink
files-unlink m path w removable =
    ap (λ b. (if b then record w { files = erase w.files path } else w).files) removable

==_self : (s : Text) → (s == s) ≡ true
==_self s = (==_iff s s).1 refl

module _ (m : Machine) (path : Text) (w : HookWorld) where
  -- A file that was written is read back.
  pub read_file-write_file :
      (content : Text)
      → m.writable path ≡ true
      → m.readable path ≡ true
      → read_file m path (write_file m path content w) ≡ some content
  unfolding read_file content_at
  read_file-write_file content writable readable =
      ap (λ files. content_at m path (lookup files path))
        (files-write_file m path content w writable)
      ∙ ap (content_at m path) (lookup-insert w.files path path content)
      ∙ ap (λ b. content_at m path (if b then some content else lookup w.files path)) (==_self path)
      ∙ ap (λ b. if b then some content else none) readable

  pub read_file-write_file_other :
      (content other : Text)
      → m.writable path ≡ true
      → (path == other) ≡ false
      → read_file m other (write_file m path content w) ≡ read_file m other w
  unfolding read_file
  read_file-write_file_other content other writable differs =
      ap (λ files. content_at m other (lookup files other))
        (files-write_file m path content w writable)
      ∙ ap (content_at m other) (lookup-insert w.files path other content)
      ∙ ap (λ b. content_at m other (if b then some content else lookup w.files other)) differs

  -- A file that was deleted is not there.
  pub read_file-unlink : m.removable path ≡ true → read_file m path (unlink m path w) ≡ none
  unfolding read_file content_at
  read_file-unlink removable =
      ap (λ files. content_at m path (lookup files path)) (files-unlink m path w removable)
      ∙ ap (content_at m path) (lookup-erase w.files path path)
      ∙ ap (λ b. content_at m path (if b then none else lookup w.files path)) (==_self path)

  pub read_file-unlink_other :
      (other : Text)
      → m.removable path ≡ true
      → (path == other) ≡ false
      → read_file m other (unlink m path w) ≡ read_file m other w
  unfolding read_file
  read_file-unlink_other other removable differs =
      ap (λ files. content_at m other (lookup files other)) (files-unlink m path w removable)
      ∙ ap (content_at m other) (lookup-erase w.files path other)
      ∙ ap (λ b. content_at m other (if b then none else lookup w.files other)) differs

-- Digits are no white space, so that `trim` leaves them.
abbrev IsSpaceless : Text → Type 0
IsSpaceless s = All (λ c. is_space c ≡ false) s

digit-is_space : (n : ℕ) → n < 10 → is_space (48 + n) ≡ false
unfolding is_space
digit-is_space n h = ground arith

drop_while-IsSpaceless : (s : Text) → IsSpaceless s → drop_while is_space s ≡ s
unfolding drop_while
drop_while-IsSpaceless [] h = refl
drop_while-IsSpaceless (c ∷ s) h = ap (λ b. if b then drop_while is_space s else c ∷ s) h.0

reverse_aux-IsSpaceless :
    (s seen : Text) → IsSpaceless s → IsSpaceless seen → IsSpaceless (reverse_aux s seen)
reverse_aux-IsSpaceless [] seen h k = k
reverse_aux-IsSpaceless (c ∷ s) seen h k = reverse_aux-IsSpaceless s (c ∷ seen) h.1 (h.0, k)

digits_from-IsSpaceless :
    (fuel n : ℕ) (out : Text) → IsSpaceless out → IsSpaceless (digits_from fuel n out)
unfolding digits_from
digits_from-IsSpaceless zero n out h = h
digits_from-IsSpaceless (suc fuel) n out h = elim (Bool-cases (ltb n 10)) [
  | inl small ↦ rw (small, digits_from) (digit-is_space n (ltb→lt n 10 small), h)
  | inr large ↦
      rw (large, digits_from)
        (digits_from-IsSpaceless fuel (n / 10) ((48 + n % 10) ∷ out)
          (digit-is_space (n % 10) (omega arith), h))
]

pub trim-decimal : (n : ℕ) → trim (decimal n) ≡ decimal n
unfolding trim drop_while_end decimal
trim-decimal n =
    let spaceless = digits_from-IsSpaceless (suc n) n [] tt in
    ap (λ s. reverse (drop_while is_space (reverse s)))
      (drop_while-IsSpaceless (decimal n) spaceless)
    ∙ ap reverse (
        drop_while-IsSpaceless (reverse (decimal n))
          (reverse_aux-IsSpaceless (decimal n) [] spaceless tt))
    ∙ reverse-reverse (decimal n)
