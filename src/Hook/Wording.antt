-- ===== src/Hook/Wording.antt =====
-- The texts of a push: status, headline, times, and the cut to a length.
pub mod Bounds
use notify_hub.Base.{
  ℕ, zero, suc, ◌+◌, ◌-◌, ◌/◌, ◌%◌, Bool, true, false, ◌||◌, ◌&&◌, not, Option, none, some, List,
  [], ◌∷◌, ◌++◌, map, filter, last, any, take, length, Text, lit, trim, drop_while, drop_while_end,
  is_space, is_empty, split, decimal, leb, ltb, eqb, ℤ, pos, negsuc, if◌then◌else◌,
}
use notify_hub.Hook.{Machine}

-- `text.slice(0, max - 1)`, for a `max` that is not 0.
unfoldable pub cap_length : Text → ℕ → Text
unfolding drop_while_end is_space
cap_length text max =
    if leb (length text) max then text else drop_while_end is_space (take (max - 1) text) ++ lit "…"

-- How many units of the white space at the front stand before and at its last line feed; 0 is that it
-- has none.
blank_run : Text → ℕ
unfolding is_space
blank_run [] = 0
blank_run (c ∷ s) =
    let rest = blank_run s in
    if not (is_space c) then 0 else if ltb 0 rest then suc rest else if eqb c 10 then 1 else 0

-- `text.split(/\n\s*\n/)`, with the current piece, and the units of a separator that are left.
split_paragraphs : ℕ → Text → Text → List Text
unfolding blank_run
split_paragraphs skipped seen [] = seen ∷ []
split_paragraphs (suc k) seen (c ∷ s) = split_paragraphs k seen s
split_paragraphs zero seen (c ∷ s) =
    let found = seen ∷ split_paragraphs (blank_run s) [] s in
    let longer = split_paragraphs zero (seen ++ c ∷ []) s in
    if eqb c 10 && ltb 0 (blank_run s) then found else longer

ends_with_question : Option Text → Bool
ends_with_question none = false
ends_with_question (some paragraph) = elim (last paragraph) [ none ↦ false | some c ↦ eqb c b'?' ]

pub data EndStatus : Type 0 where
  decision done : EndStatus

abbrev pub emoji : EndStatus → Text
emoji decision = lit "🤔"
emoji done = lit "✅"

abbrev pub label : EndStatus → Text
label decision = lit "aguardando sua decisão"
label done = lit "concluído"

unfoldable pub classify_end_status : Option Text → EndStatus
unfolding split_paragraphs trim is_empty ends_with_question
classify_end_status none = done
classify_end_status (some message) =
    let paragraphs = filter (λ p. not (is_empty p)) (map trim (split_paragraphs 0 [] message)) in
    if not (is_empty message) && ends_with_question (last paragraphs) then decision else done

first_line : List Text → Option Text
unfolding is_empty
first_line [] = none
first_line (line ∷ lines) =
    let later = first_line lines in if is_empty line then later else some line

is_markdown : ℕ → Bool
unfolding is_space
is_markdown c = eqb c b'#' || eqb c b'*' || eqb c b'_' || eqb c b'>' || is_space c

headline_of : Option Text → Text
unfolding drop_while is_markdown trim cap_length
headline_of none = []
headline_of (some line) = cap_length (trim (drop_while is_markdown line)) 140

unfoldable pub extract_headline : Option Text → Text
unfolding headline_of first_line trim split
extract_headline none = []
extract_headline (some text) = headline_of (first_line (map trim (split text (lit "\n"))))

-- `String(n).padStart(2, '0')`
unfoldable pub two_digits : ℕ → Text
unfolding decimal
two_digits n = if ltb n 10 then lit "0" ++ decimal n else decimal n

unfoldable pub format_local_time : Machine → ℤ → Text
unfolding two_digits
format_local_time m ms =
    let (hours, minutes) = m.local_time ms in two_digits hours ++ (lit ":" ++ two_digits minutes)

-- From `Math.round(ms / 60_000)`, which rounds a half up.
duration_of_minutes : ℕ → Text
unfolding two_digits decimal
duration_of_minutes total =
    let hours = total / 60 in
    let minutes = total % 60 in
    if ltb 0 hours
    then decimal hours ++ (lit "h " ++ (two_digits minutes ++ lit "min"))
    else decimal minutes ++ lit "min"

unfoldable pub format_duration : ℤ → Text
unfolding duration_of_minutes
format_duration (negsuc n) = lit "<1min"
format_duration (pos ms) =
    if ltb ms 60000 then lit "<1min" else duration_of_minutes ((ms + 30000) / 60000)

unfoldable pub build_title : Text → Text → Text → Text
build_title emoji project label = emoji ++ (lit " " ++ (project ++ (lit " — " ++ label)))

time_line : Machine → Option ℤ → ℤ → ℤ → Text
unfolding format_local_time format_duration
time_line m none ended elapsed = lit "Fim " ++ format_local_time m ended
time_line m (some started) ended elapsed =
    lit "Início "
    ++ (format_local_time m started
        ++ (lit " · Fim "
            ++ (format_local_time m ended ++ (lit " (" ++ (format_duration elapsed ++ lit ")")))))

-- `elapsed` is the difference of the two times.
unfoldable pub build_end_body : Machine → Option ℤ → ℤ → ℤ → Text → Text
unfolding time_line is_empty
build_end_body m started ended elapsed headline =
    let line = time_line m started ended elapsed in
    if is_empty headline then line else line ++ (lit "\n\n" ++ headline)

unfoldable pub build_needs_input_body : Text → Text → Text
build_needs_input_body project message = lit "Projeto: " ++ (project ++ (lit "\n" ++ message))
