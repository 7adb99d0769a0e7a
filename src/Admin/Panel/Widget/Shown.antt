-- ===== src/Admin/Panel/Widget/Shown.antt =====
-- What the combobox of src/admin/ui/admin-searchable-combobox-dom.js shows and selects, however it is
-- used.
use mathlib.Core.Path.{subst}
use notify_hub.Base.{
  sym, ℕ, zero, suc, ◌+◌, ◌<◌, Bool, true, false, Option, none, some, List, [], ◌∷◌, ◌++◌, length,
  last, Text, is_empty, trim, ltb, ℤ, pos, negsuc, if◌then◌else◌, ◌≡◌, refl, ◌⊎◌, inl, inr, All,
  All-append, Mem, mem-filter, arith, Bool-cases,
}
use notify_hub.Admin.Panel.Combobox.{
  Choice, at, only, filter_options, moved, after_from, move_highlight_index,
  resolve_enter_selection,
}
use notify_hub.Admin.Panel.Combobox.Selecting.{clamp-le}
use notify_hub.Admin.Panel.Widget.{
  Combobox, Act, focus, type_text, arrow_down, arrow_up, enter, escape, press, click_outside,
  create_searchable_combobox, close_panel, select, index_from, is_current, show_all_options,
  first_or_none, typed, moved_by, select_found, act, act_all,
}

-- No option is highlighted, or one that is listed.
abbrev pub IsHighlight : List Choice → ℤ → Type 0
IsHighlight filtered i = (i ≡ negsuc 0) ⊎ ((k : ℕ) × (i ≡ pos k) × (k < length filtered))

abbrev pub IsValueOf : List Choice → Text → Type 0
IsValueOf options value = (o : Choice) × Mem o options × (o.value ≡ value)

-- The current value: what it was at first, or the value of the option that was selected last, whose
-- label is current too.
abbrev pub IsCurrent : List Choice → Option Text → Combobox → Type 0
IsCurrent options initial s =
    ((s.selections ≡ []) × (s.current_value ≡ initial))
    ⊎ ((o : Choice) × Mem o options
        × (s.current_value ≡ some o.value)
        × (s.current_label ≡ o.label)
        × (last s.selections ≡ some o.value))

pub record IsShown (options : List Choice) (initial : Option Text) (s : Combobox) : Type 0 where
  pub closed : s.is_open ≡ false → s.input ≡ s.current_label
  pub filtered : (o : Choice) → Mem o s.filtered → Mem o options
  pub highlight : IsHighlight s.filtered s.highlight_index
  pub selections : All (IsValueOf options) s.selections
  pub current : IsCurrent options initial s

last-concat : {A : Type 0} (xs : List A) (x : A) → last (xs ++ x ∷ []) ≡ some x
last-concat [] x = refl
last-concat (y ∷ []) x = refl
last-concat (y ∷ z ∷ xs) x = last-concat (z ∷ xs) x

index_from-IsHighlight :
    (i : ℕ) (test : Choice → Bool) (options : List Choice)
    → (index_from i test options ≡ negsuc 0)
      ⊎ ((k : ℕ) × (index_from i test options ≡ pos k) × (k < i + length options))
unfolding index_from
index_from-IsHighlight i test [] = inl refl
index_from-IsHighlight i test (o ∷ options) = elim (Bool-cases (test o)) [
  | inl found ↦ inr (i, rw found refl, omega arith)
  | inr other ↦ elim (index_from-IsHighlight (suc i) test options) [
    | inl none' ↦ inl (rw other none')
    | inr (k, e, inside) ↦ inr (k, rw other e, omega (arith, inside))
  ]
]

move_highlight_index-IsHighlight :
    (current delta : ℤ) (filtered : List Choice)
    → IsHighlight filtered (move_highlight_index current delta (length filtered))
unfolding move_highlight_index
move_highlight_index-IsHighlight current delta [] = inl refl
move_highlight_index-IsHighlight current delta (o ∷ options) =
    let (k, e, inside) =
      clamp-le (moved (after_from current (length options)) delta) (length options) in
    inr (k, e, omega (arith, inside))

mem-filter_options :
    (lower_case : Text → Text) (options : List Choice) (query : Text) (o : Choice)
    → Mem o (filter_options lower_case options query)
    → Mem o options
unfolding filter_options
mem-filter_options lower_case options query o m =
    elim (Bool-cases (is_empty (lower_case (trim query)))) [
      | inl blank ↦ rw blank at m
      | inr given ↦ ((mem-filter _ o options).0 (rw given at m)).0
    ]

mem-at : (xs : List Choice) (i : ℕ) (o : Choice) → at xs i ≡ some o → Mem o xs
unfolding at
mem-at [] i o e = absurd (cc e)
mem-at (x ∷ xs) zero o e = inl (ground arith)
mem-at (x ∷ xs) (suc i) o e = inr (mem-at xs i o e)

mem-only : (xs : List Choice) (o : Choice) → only xs ≡ some o → Mem o xs
unfolding only
mem-only [] o e = absurd (cc e)
mem-only (x ∷ []) o e = inl (ground arith)
mem-only (x ∷ y ∷ xs) o e = absurd (cc e)

mem-resolve_enter_selection :
    (xs : List Choice) (i : ℤ) (o : Choice) → resolve_enter_selection xs i ≡ some o → Mem o xs
unfolding resolve_enter_selection
mem-resolve_enter_selection xs (negsuc i) o e = mem-only xs o e
mem-resolve_enter_selection xs (pos i) o e = elim (Bool-cases (ltb i (length xs))) [
  | inl inside ↦ mem-at xs i o (rw inside at e)
  | inr outside ↦ mem-only xs o (rw outside at e)
]

module _ (lower_case : Text → Text) (options : List Choice) (initial : Option Text) where
  created-IsShown : IsShown options initial (create_searchable_combobox options initial)
  unfolding create_searchable_combobox
  created-IsShown = record {
    closed = λ e. refl;
    filtered = λ o m. m;
    highlight = inl refl;
    selections = tt;
    current = inl (refl, refl);
  }

  close_panel-IsShown :
      (s : Combobox) → IsShown options initial s → IsShown options initial (close_panel true s)
  unfolding close_panel
  close_panel-IsShown s h = elim (Bool-cases s.is_open) [
    | inl opened ↦ rw opened (record {
      closed = λ e. refl;
      filtered = h.filtered;
      highlight = inl refl;
      selections = h.selections;
      current = h.current;
    })
    | inr shut ↦
        subst
          (λ b. IsShown options initial (
            if b
            then record s { is_open = false; highlight_index = negsuc 0; input = s.current_label }
            else s))
          (sym shut) h
  ]

  select-IsShown :
      (s : Combobox) (o : Choice)
      → Mem o options
      → IsShown options initial s
      → IsShown options initial (select o s)
  unfolding select close_panel
  select-IsShown s o m h =
      let all =
        All-append (IsValueOf options) s.selections (o.value ∷ []) h.selections
          ((o, m, refl), tt) in
      let now = inr (o, m, refl, refl, last-concat s.selections o.value) in
      elim (Bool-cases s.is_open) [
        | inl opened ↦ rw opened (record {
          closed = λ e. refl;
          filtered = h.filtered;
          highlight = inl refl;
          selections = all;
          current = now;
        })
        | inr shut ↦ rw shut (record {
          closed = λ e. refl;
          filtered = h.filtered;
          highlight = h.highlight;
          selections = all;
          current = now;
        })
      ]

  select_found-IsShown :
      (s : Combobox) (found : Option Choice)
      → ((o : Choice) → found ≡ some o → Mem o s.filtered)
      → IsShown options initial s
      → IsShown options initial (select_found found s)
  unfolding select_found
  select_found-IsShown s none there h = h
  select_found-IsShown s (some o) there h = select-IsShown s o (h.filtered o (there o refl)) h

  moved_by-IsShown :
      (delta : ℤ) (s : Combobox)
      → IsShown options initial s
      → IsShown options initial (moved_by delta s)
  unfolding moved_by
  moved_by-IsShown delta s h = record {
    closed = h.closed;
    filtered = h.filtered;
    highlight = move_highlight_index-IsHighlight s.highlight_index delta s.filtered;
    selections = h.selections;
    current = h.current;
  }

  first_or_none-IsHighlight : (xs : List Choice) → IsHighlight xs (first_or_none xs)
  unfolding first_or_none
  first_or_none-IsHighlight [] = inl refl
  first_or_none-IsHighlight (x ∷ xs) = inr (0, refl, omega arith)

  typed-IsShown :
      (text : Text) (s : Combobox)
      → IsShown options initial s
      → IsShown options initial (typed lower_case options text s)
  unfolding typed
  typed-IsShown text s h = record {
    closed = λ e. absurd (cc e);
    filtered = λ o m. mem-filter_options lower_case options text o m;
    highlight = first_or_none-IsHighlight (filter_options lower_case options text);
    selections = h.selections;
    current = h.current;
  }

  show_all_options-IsShown :
      (s : Combobox)
      → IsShown options initial s
      → IsShown options initial (show_all_options options s)
  unfolding show_all_options
  show_all_options-IsShown s h = record {
    closed = λ e. absurd (cc e);
    filtered = λ o m. m;
    highlight = elim (index_from-IsHighlight 0 (is_current s.current_value) options) [
      | inl none' ↦ inl none'
      | inr (k, e, inside) ↦ inr (k, e, omega (arith, inside))
    ];
    selections = h.selections;
    current = h.current;
  }

  act-IsShown :
      (a : Act) (s : Combobox)
      → IsShown options initial s
      → IsShown options initial (act lower_case options a s)
  unfolding act
  act-IsShown focus s h = show_all_options-IsShown s h
  act-IsShown (type_text text) s h = typed-IsShown text s h
  act-IsShown arrow_down s h = moved_by-IsShown (pos 1) s h
  act-IsShown arrow_up s h = moved_by-IsShown (negsuc 0) s h
  act-IsShown enter s h =
      select_found-IsShown s (resolve_enter_selection s.filtered s.highlight_index)
        (mem-resolve_enter_selection s.filtered s.highlight_index) h
  act-IsShown escape s h = close_panel-IsShown s h
  act-IsShown (press i) s h = select_found-IsShown s (at s.filtered i) (mem-at s.filtered i) h
  act-IsShown click_outside s h = close_panel-IsShown s h

  reached-IsShown :
      (acts : List Act) (s : Combobox)
      → IsShown options initial s
      → IsShown options initial (act_all lower_case options acts s)
  unfolding act_all
  reached-IsShown [] s h = h
  reached-IsShown (a ∷ acts) s h =
      reached-IsShown acts (act lower_case options a s) (act-IsShown a s h)

  -- Whatever the user does, in any order: while the panel is closed the input shows the current label,
  -- so that a half-typed query never stays; the panel lists only options, and the highlight is on one
  -- of those listed or on none; every value that `onSelect` was called with is an option's; and the
  -- current value and label are those of the option that was selected last, or, before any selection,
  -- the value is the initial one.
  pub act_all-IsShown :
      (acts : List Act)
      → IsShown options initial
          (act_all lower_case options acts (create_searchable_combobox options initial))
  act_all-IsShown acts =
      reached-IsShown acts (create_searchable_combobox options initial) created-IsShown
