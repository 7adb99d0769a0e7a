-- ===== src/Admin/Panel/Combobox.antt =====
-- src/admin/ui/admin-searchable-combobox.js, and the voices of src/admin/ui/admin-local-tts.js that it shows.
pub mod Selecting
use notify_hub.Base.{
  ℕ, zero, suc, ◌+◌, ◌-◌, Bool, true, false, ◌||◌, Option, none, some, List, [], ◌∷◌, ◌++◌, map,
  filter, any, length, Text, lit, ◌==◌, trim, is_empty, includes, ltb, leb, ℤ, pos, negsuc, sub_ℕ,
  if◌then◌else◌,
}

pub record Choice : Type 0 where
  pub value : Text
  pub label : Text
  pub selected : Bool
  pub search_text : Text

-- `lower_case` is `toLowerCase`; a query that is not given is empty.
unfoldable pub filter_options : (Text → Text) → List Choice → Text → List Choice
unfolding trim is_empty includes
filter_options lower_case options query =
    let needle = lower_case (trim query) in
    if is_empty needle
    then options
    else filter (λ option. includes (lower_case option.search_text) needle) options

-- One more than `from`.
unfoldable pub after_from : ℤ → ℕ → ℕ
after_from (negsuc i) last = 0
after_from (pos i) last = if leb i last then suc i else suc last

-- `from + delta`
unfoldable pub moved : ℕ → ℤ → ℤ
moved after (pos d) = sub_ℕ (after + d) 1
moved after (negsuc d) = sub_ℕ after (suc (suc d))

-- `Math.max(0, Math.min(i, last))`
unfoldable pub clamp : ℤ → ℕ → ℤ
clamp (negsuc i) last = pos 0
clamp (pos i) last = if leb i last then pos i else pos last

unfoldable pub move_highlight_index : ℤ → ℤ → ℕ → ℤ
unfolding after_from moved clamp
move_highlight_index current delta zero = negsuc 0
move_highlight_index current delta (suc last) = clamp (moved (after_from current last) delta) last

unfoldable pub at : {A : Type 0} → List A → ℕ → Option A
at [] i = none
at (x ∷ xs) zero = some x
at (x ∷ xs) (suc i) = at xs i

unfoldable pub only : List Choice → Option Choice
only (option ∷ []) = some option
only _ = none

-- An index that is out of range selects the sole option, if there is one.
unfoldable pub resolve_enter_selection : List Choice → ℤ → Option Choice
unfolding at only
resolve_enter_selection filtered (negsuc i) = only filtered
resolve_enter_selection filtered (pos i) =
    if ltb i (length filtered) then at filtered i else only filtered

-- A voice of the answer of the proxy route.
pub record PlayerVoice : Type 0 where
  pub name : Text
  pub locale : Text
  pub sample : Text

-- The answer: `reachable`, and `voices` if it is an array.
pub record VoicesResponse : Type 0 where
  pub reachable : Option Bool
  pub voices : Option (List PlayerVoice)

unfoldable pub voice_choice : Text → PlayerVoice → Choice
unfolding ◌==◌ lit
voice_choice current voice = record {
  value = voice.name;
  label = voice.name ++ (lit " (" ++ (voice.locale ++ lit ")"));
  selected = voice.name == current;
  search_text = voice.name ++ (lit " " ++ (voice.locale ++ (lit " " ++ voice.sample)));
}

-- The current value is kept even if no voice has that name.
unfoldable pub choices_of : Text → List PlayerVoice → List Choice
unfolding voice_choice is_empty
choices_of current voices =
    let options = map (voice_choice current) voices in
    if is_empty current || any (λ option. option.selected) options
    then options
    else options
      ++ (record { value = current; label = current; selected = true; search_text = current }) ∷ []

unfoldable pub options_of : Text → Option (List PlayerVoice) → Option (List Choice)
unfolding choices_of
options_of current none = none
options_of current (some []) = none
options_of current (some (voice ∷ voices)) = some (choices_of current (voice ∷ voices))

-- A response that is missing or unreachable has no voices.
unfoldable pub voices_in : Option VoicesResponse → Option (List PlayerVoice)
voices_in none = none
voices_in (some response) = elim response.reachable [
  | some false ↦ some []
  | some true ↦ response.voices
  | none ↦ response.voices
]

-- A current value that is not given is empty.
unfoldable pub build_voice_options : Option VoicesResponse → Text → Option (List Choice)
unfolding options_of voices_in
build_voice_options response current = options_of current (voices_in response)
