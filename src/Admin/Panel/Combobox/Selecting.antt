-- ===== src/Admin/Panel/Combobox/Selecting.antt =====
-- What the arrows and Enter select, and the current voice among the options.
use mathlib.Core.Path.{subst}
use notify_hub.Base.{
  ℕ, zero, suc, ◌<◌, ◌≤◌, Bool, true, false, ◌||◌, Option, none, some, List, [], ◌∷◌, ◌++◌, map,
  any, length, Text, ◌==◌, ==_iff, is_empty, leb, ltb, leb→le, ℤ, pos, negsuc, ◌≡◌, refl, sym, ap,
  ◌∙◌, ◌⊎◌, inl, inr, Mem, mem-append, Bool-cases, arith, if◌then◌else◌,
}
use notify_hub.Admin.Panel.Combobox.{
  Choice, PlayerVoice, VoicesResponse, filter_options, after_from, moved, clamp,
  move_highlight_index, at, only, resolve_enter_selection, voice_choice, choices_of, options_of,
  voices_in, build_voice_options,
}

pub clamp-le : (i : ℤ) (last : ℕ) → (k : ℕ) × (clamp i last ≡ pos k) × (k ≤ last)
unfolding clamp
clamp-le (negsuc i) last = (0, refl, omega arith)
clamp-le (pos i) last = elim (Bool-cases (leb i last)) [
  | inl inside ↦ rw inside (i, refl, leb→le i last inside)
  | inr outside ↦ rw outside (last, refl, omega arith)
]

pub at-some :
    {A : Type 0} (xs : List A) (i : ℕ) → i < length xs → (x : A) × (at xs i ≡ some x) × Mem x xs
unfolding at
at-some [] i h = absurd (omega arith)
at-some (x ∷ xs) zero h = (x, refl, inl refl)
at-some (x ∷ xs) (suc i) h = let (y, e, m) = at-some xs i (omega arith) in (y, e, inr m)

selects :
    (filtered : List Choice) (i : ℕ)
    → i < length filtered
    → (o : Choice) × (resolve_enter_selection filtered (pos i) ≡ some o) × Mem o filtered
unfolding resolve_enter_selection
selects filtered i h =
    let (o, e, m) = at-some filtered i h in
    let inside : ltb i (length filtered) ≡ true = ground arith in
    (o, ap (λ b. if b then at filtered i else only filtered) inside ∙ e, m)

after_arrow :
    (filtered : List Choice) (current delta : ℤ)
    → ((filtered ≡ [])
        × (resolve_enter_selection filtered (move_highlight_index current delta (length filtered))
            ≡ none))
      ⊎ ((o : Choice) × (resolve_enter_selection filtered
              (move_highlight_index current delta (length filtered))
            ≡ some o)
          × Mem o filtered)
unfolding move_highlight_index
after_arrow [] current delta = inl (refl, unfold resolve_enter_selection only in refl)
after_arrow (option ∷ options) current delta =
    let last = length options in
    let (k, e, inside) = clamp-le (moved (after_from current last) delta) last in
    let (o, selected, m) = selects (option ∷ options) k (omega (arith, inside)) in
    inr (o, ap (resolve_enter_selection (option ∷ options)) e ∙ selected, m)

-- Whatever is highlighted and however far the highlight is moved, Enter selects one of the options
-- that the query leaves, and nothing only if it leaves none.
pub resolve_enter_selection-move :
    (lower_case : Text → Text) (options : List Choice) (query : Text) (current delta : ℤ)
    → let filtered = filter_options lower_case options query in
      let entered =
        resolve_enter_selection filtered (move_highlight_index current delta (length filtered)) in
      ((filtered ≡ []) × (entered ≡ none)) ⊎ ((o : Choice) × (entered ≡ some o) × Mem o filtered)
resolve_enter_selection-move lower_case options query current delta =
    after_arrow (filter_options lower_case options query) current delta

-- The current value as a selected option.
abbrev pub HasCurrent : Text → List Choice → Type 0
HasCurrent current options =
    (o : Choice) × Mem o options × (o.selected ≡ true) × (o.value ≡ current)

selected_voice :
    (current : Text) (voices : List PlayerVoice)
    → any (λ option. option.selected) (map (voice_choice current) voices) ≡ true
    → HasCurrent current (map (voice_choice current) voices)
unfolding voice_choice
selected_voice current [] h = absurd (cc h)
selected_voice current (voice ∷ voices) h = elim (Bool-cases (voice.name == current)) [
  | inl same ↦ (voice_choice current voice, inl refl, same, (==_iff voice.name current).0 same)
  | inr other ↦
      let rest = any (λ option. option.selected) (map (voice_choice current) voices) in
      let (o, m, s, v) = selected_voice current voices (sym (ap (λ b. b || rest) other) ∙ h) in
      (o, inr m, s, v)
]

choices_of-HasCurrent :
    (current : Text) (voices : List PlayerVoice)
    → is_empty current ≡ false
    → HasCurrent current (choices_of current voices)
unfolding choices_of
choices_of-HasCurrent current voices given =
    let options = map (voice_choice current) voices in
    let extra : Choice = record {
      value = current;
      label = current;
      selected = true;
      search_text = current;
    } in
    let choose : Bool → List Choice = λ b.
      if b || any (λ option. option.selected) options then options else options ++ extra ∷ [] in
    subst (HasCurrent current) (sym (ap choose given))
      (elim (Bool-cases (any (λ option. option.selected) options)) [
        | inl some_selected ↦ rw some_selected (selected_voice current voices some_selected)
        | inr none_selected ↦
            rw none_selected
              (extra, (mem-append extra options (extra ∷ [])).1 (inr (inl refl)), refl, refl)
      ])

options_of-HasCurrent :
    (current : Text) (voices : Option (List PlayerVoice)) (options : List Choice)
    → options_of current voices ≡ some options
    → is_empty current ≡ false
    → HasCurrent current options
unfolding options_of
options_of-HasCurrent current none options e given = absurd (cc e)
options_of-HasCurrent current (some []) options e given = absurd (cc e)
options_of-HasCurrent current (some (voice ∷ voices)) options e given =
    subst (HasCurrent current) (cc e) (choices_of-HasCurrent current (voice ∷ voices) given)

-- When the panel shows a list of voices, a configured voice that is not empty is a selected option of
-- it, whether or not the player still has it.
pub build_voice_options-HasCurrent :
    (response : Option VoicesResponse) (current : Text) (options : List Choice)
    → build_voice_options response current ≡ some options
    → is_empty current ≡ false
    → HasCurrent current options
unfolding build_voice_options
build_voice_options-HasCurrent response current options e given =
    options_of-HasCurrent current (voices_in response) options e given
