-- ===== src/Channels/Spoken.antt =====
-- src/channels/adapters/spoken-summary.ts
use notify_hub.Base.{
  ℕ, ◌+◌, ◌-◌, ◌*◌, Bool, false, ◌&&◌, not, [], ◌∷◌, Text, leb, trim, is_empty, if◌then◌else◌,
}
use notify_hub.Core.{Notification}
use notify_hub.Ports.{Externals}

-- The code point that begins at `c`, where `s` follows: two surrogates are one code point.
is_pair : ℕ → Text → Bool
is_pair c [] = false
is_pair c (d ∷ s) = leb 0xD800 c && leb c 0xDBFF && leb 0xDC00 d && leb d 0xDFFF

code_point : ℕ → Text → ℕ
unfolding is_pair
code_point c [] = c
code_point c (d ∷ s) =
    if is_pair c (d ∷ s) then 0x10000 + (c - 0xD800) * 0x400 + (d - 0xDC00) else c

module _ (x : Externals) where
  -- Drops LEADING_SYMBOL_RUN; `second` says that `c` is the second half of a dropped pair.
  drop_symbols : Bool → Text → Text
  unfolding code_point
  drop_symbols second [] = []
  drop_symbols second (c ∷ s) =
      let rest = drop_symbols (not second && is_pair c s) s in
      if not second && x.is_letter_or_number (code_point c s) then c ∷ s else rest

  unfoldable pub spoken_summary : Notification → Text
  unfolding drop_symbols is_empty trim
  spoken_summary notification =
      if is_empty notification.title
      then notification.message
      else trim (drop_symbols false notification.title)
