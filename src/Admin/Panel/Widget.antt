-- ===== src/Admin/Panel/Widget.antt =====
-- src/admin/ui/admin-searchable-combobox-dom.js: the variables of the closure, the text of the input,
-- and the calls of `onSelect`. What is drawn follows from them.
pub mod Shown
use notify_hub.Base.{
  ℕ, zero, suc, Bool, true, false, Option, none, some, List, [], ◌∷◌, ◌++◌, length, Text, ◌==◌, ltb,
  ℤ, pos, negsuc, if◌then◌else◌,
}
use notify_hub.Base.Table.{find}
use notify_hub.Admin.Panel.Combobox.{
  Choice, at, filter_options, move_highlight_index, resolve_enter_selection,
}

pub record Combobox : Type 0 where
  pub input : Text
  pub current_value : Option Text
  pub current_label : Text
  pub filtered : List Choice
  pub highlight_index : ℤ
  pub is_open : Bool
  -- The values that `onSelect` was called with, the last one last.
  pub selections : List Text

-- What the user does. A press is on an option that the panel shows; a click outside is heard only
-- while the panel is open.
pub data Act : Type 0 where
  focus : Act
  type_text : Text → Act
  arrow_down arrow_up enter escape : Act
  press : ℕ → Act
  click_outside : Act

-- `initialMatch ? initialMatch.label : initialValue ?? ''`
initial_label : Option Choice → Option Text → Text
initial_label (some option) value = option.label
initial_label none (some value) = value
initial_label none none = []

initial_match : List Choice → Option Text → Option Choice
unfolding find
initial_match options none = none
initial_match options (some value) = find (λ option. option.value == value) options

unfoldable pub create_searchable_combobox : List Choice → Option Text → Combobox
unfolding initial_label initial_match
create_searchable_combobox options initial_value =
    let label = initial_label (initial_match options initial_value) initial_value in
    record {
      input = label;
      current_value = initial_value;
      current_label = label;
      filtered = options;
      highlight_index = negsuc 0;
      is_open = false;
      selections = [];
    }

-- `closePanel()` and `closePanel({ resetLabel: true })`
unfoldable pub close_panel : (reset_label : Bool) → Combobox → Combobox
close_panel reset_label s =
    if s.is_open
    then record s {
      is_open = false;
      highlight_index = negsuc 0;
      input = if reset_label then s.current_label else s.input;
    }
    else s

unfoldable pub select : Choice → Combobox → Combobox
unfolding close_panel
select option s =
    let closed = close_panel false (record s {
      current_value = some option.value;
      current_label = option.label;
      input = option.label;
    }) in
    record closed { selections = closed.selections ++ option.value ∷ [] }

-- `findIndex`, from the index `i` on.
unfoldable pub index_from : ℕ → (Choice → Bool) → List Choice → ℤ
index_from i test [] = negsuc 0
index_from i test (option ∷ options) =
    let later = index_from (suc i) test options in if test option then pos i else later

is_current : Option Text → Choice → Bool
is_current none option = false
is_current (some value) option = option.value == value

unfoldable pub show_all_options : List Choice → Combobox → Combobox
unfolding index_from is_current
show_all_options options s = record s {
  filtered = options;
  highlight_index = index_from 0 (is_current s.current_value) options;
  is_open = true;
}

first_or_none : List Choice → ℤ
first_or_none [] = negsuc 0
first_or_none (option ∷ options) = pos 0

-- The listener of `input`.
unfoldable pub typed : (Text → Text) → List Choice → Text → Combobox → Combobox
unfolding filter_options first_or_none
typed lower_case options text s =
    let filtered = filter_options lower_case options text in
    record s {
      input = text;
      filtered = filtered;
      highlight_index = first_or_none filtered;
      is_open = true;
    }

unfoldable pub moved_by : ℤ → Combobox → Combobox
unfolding move_highlight_index
moved_by delta s = record s {
  highlight_index = move_highlight_index s.highlight_index delta (length s.filtered);
}

unfoldable pub select_found : Option Choice → Combobox → Combobox
unfolding select
select_found none s = s
select_found (some option) s = select option s

unfoldable pub act : (Text → Text) → List Choice → Act → Combobox → Combobox
unfolding show_all_options typed moved_by select_found close_panel resolve_enter_selection at
act lower_case options focus s = show_all_options options s
act lower_case options (type_text text) s = typed lower_case options text s
act lower_case options arrow_down s = moved_by (pos 1) s
act lower_case options arrow_up s = moved_by (negsuc 0) s
act lower_case options enter s =
    select_found (resolve_enter_selection s.filtered s.highlight_index) s
act lower_case options escape s = close_panel true s
act lower_case options (press i) s = select_found (at s.filtered i) s
act lower_case options click_outside s = close_panel true s

unfoldable pub act_all : (Text → Text) → List Choice → List Act → Combobox → Combobox
unfolding act
act_all lower_case options [] s = s
act_all lower_case options (a ∷ acts) s =
    act_all lower_case options acts (act lower_case options a s)
