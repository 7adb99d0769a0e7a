-- ===== src/Player/Voices.antt =====
-- `parseVoicesOutput` of clients/local-tts-player/local-tts-server.mjs. VOICE_LINE_PATTERN is
-- `/^(.+?)\s+([a-z]{2,3}_[A-Za-z0-9]{2,3})\s+#\s*(.*)$/`.
use notify_hub.Base.{
  ℕ, suc, ◌+◌, Bool, ◌&&◌, ◌||◌, not, Option, none, some, List, [], ◌∷◌, ◌++◌, any, drop, take,
  Text, lit, trim, drop_while, drop_while_end, is_space, is_empty, split, leb, eqb, if◌then◌else◌,
}

pub record Voice : Type 0 where
  pub name : Text
  pub locale : Text
  pub sample : Text

is_lower : ℕ → Bool
is_lower c = leb b'a' c && leb c b'z'

is_alnum : ℕ → Bool
unfolding is_lower
is_alnum c = is_lower c || (leb b'A' c && leb c b'Z') || (leb b'0' c && leb c b'9')

-- What `.` does not match.
is_line_end : ℕ → Bool
is_line_end c = eqb c 10 || eqb c 13 || eqb c 0x2028 || eqb c 0x2029

-- The length of the longest run at the front that passes the test.
run_length : (ℕ → Bool) → Text → ℕ
run_length p [] = 0
run_length p (c ∷ s) = let rest = run_length p s in if p c then suc rest else 0

is_two_or_three : ℕ → Bool
is_two_or_three n = eqb n 2 || eqb n 3

-- The length of a locale at the front, up to the white space that has to follow it.
locale_length : Text → Option ℕ
unfolding run_length is_lower is_alnum is_two_or_three
locale_length s =
    let language = run_length is_lower s in
    let region = run_length is_alnum (drop (suc language) s) in
    if is_two_or_three language
      && any (λ c. eqb c b'_') (take 1 (drop language s))
      && is_two_or_three region
    then some (language + 1 + region)
    else none

-- What follows the locale: white space, `#`, and the sample, on one line.
sample_after : Text → Option Text
unfolding is_space is_line_end drop_while
sample_after [] = none
sample_after (c ∷ s) = elim (drop_while is_space s) [
  | [] ↦ none
  | d ∷ rest ↦
      let sample = drop_while is_space rest in
      if is_space c && eqb d b'#' && not (any is_line_end sample) then some sample else none
]

-- What follows the name: white space, a locale, and a sample.
after_name : Text → Text → Option Voice
unfolding locale_length sample_after is_space drop_while trim
after_name name [] = none
after_name name (c ∷ s) =
    let tail = drop_while is_space (c ∷ s) in
    elim (if is_space c then locale_length tail else none) [
      | none ↦ none
      | some n ↦ elim (sample_after (drop n tail)) [
        | none ↦ none
        | some sample ↦
            some (record { name = trim name; locale = take n tail; sample = trim sample })
      ]
    ]

-- The lazy `(.+?)`: the shortest name that the rest matches after.
match_from : Text → Text → Option Voice
unfolding after_name is_line_end
match_from name [] = none
match_from name (c ∷ s) =
    let name' = name ++ c ∷ [] in
    if is_line_end c
    then none
    else elim (after_name name' s) [ some voice ↦ some voice | none ↦ match_from name' s ]

voice_of_line : Text → Option Voice
unfolding match_from
voice_of_line line = match_from [] line

voices_of : List Text → List Voice
unfolding voice_of_line drop_while_end is_space is_empty
voices_of [] = []
voices_of (raw_line ∷ lines) =
    let line = drop_while_end is_space raw_line in
    elim (if is_empty line then none else voice_of_line line) [
      | none ↦ voices_of lines
      | some voice ↦ voice ∷ voices_of lines
    ]

unfoldable pub parse_voices_output : Text → List Voice
unfolding voices_of split
parse_voices_output stdout = voices_of (split stdout (lit "\n"))
