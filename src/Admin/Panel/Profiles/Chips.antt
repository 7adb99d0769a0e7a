-- ===== src/Admin/Panel/Profiles/Chips.antt =====
-- What the chips of src/admin/ui/admin-profiles.js do to the default channels.
use mathlib.Core.Path.{subst}
use notify_hub.Base.{
  ℕ, zero, suc, not, List, [], ◌∷◌, ◌++◌, map, Text, ◌==◌, ==_iff, has, has_iff, if◌then◌else◌, ◌≡◌,
  ◌≢◌, refl, sym, ap, ◌↔◌, inl, inr, All, All-append, All-of_mem, All-mem, Nodup-filter, filter,
  eqb, length, Mem, Nodup, Nodup-concat, mem-append, arith, Bool-cases,
}
use notify_hub.Core.{ChannelInstance, ProfileRecord}
use notify_hub.Admin.Validation.{ConfigPayload}
use notify_hub.Admin.Panel.Instances.{
  enabled_ids, prune_profile, prune_profiles, prune_default_channels_to_enabled,
}
use notify_hub.Admin.Panel.Profiles.{
  change_at, remove_at, remove_first, toggle_chip, PanelEdit, toggle_default, name_profile,
  set_token, remove_profile, add_profile, label_channel, enable_channel, delete_channel,
  remove_channel, pruned, apply_edit, apply_edits,
}

mem-remove_first :
    (id x : Text) (xs : List Text) → Nodup xs → Mem x (remove_first id xs) ↔ (Mem x xs × (x ≢ id))
unfolding remove_first
mem-remove_first id x [] h = ground arith
mem-remove_first id x (y ∷ xs) h =
    ground (arith, ==_iff y id, mem-remove_first id x xs h.1, λ (m : Mem y xs). h.0 m)

Nodup-remove_first : (id : Text) (xs : List Text) → Nodup xs → Nodup (remove_first id xs)
unfolding remove_first
Nodup-remove_first id [] h = tt
Nodup-remove_first id (y ∷ xs) h =
    ground (arith, mem-remove_first id y xs h.1, Nodup-remove_first id xs h.1)

-- A click takes the id out when it is there, and puts it in when it is not; all others stay.
abbrev pub IsToggled : Text → List Text → List Text → Type 0
IsToggled id before after =
    Nodup after
    × (has after id ≡ not (has before id))
    × ((other : Text) → other ≢ id → Mem other after ↔ Mem other before)

clicked-IsToggled :
    (id : Text) (ids : List Text)
    → Nodup ids
    → IsToggled id ids (if has ids id then remove_first id ids else ids ++ id ∷ [])
clicked-IsToggled id ids h = elim (Bool-cases (has ids id)) [
  | inl on ↦ rw on (
    Nodup-remove_first id ids h,
    ground (arith, mem-remove_first id id ids h, has_iff (remove_first id ids) id),
    λ other ne. ground (arith, mem-remove_first id other ids h),
  )
  | inr off ↦ rw off (
    Nodup-concat id ids h (λ m. absurd (cc (off, (has_iff ids id).1 m))),
    (has_iff (ids ++ id ∷ []) id).1 ((mem-append id ids (id ∷ [])).1 (inr (inl refl))),
    λ other ne. ground (arith, mem-append other ids (id ∷ [])),
  )
]

toggle_chip-IsToggled :
    (id : Text) (p : ProfileRecord)
    → Nodup p.default_channels
    → IsToggled id p.default_channels (toggle_chip id p).default_channels
unfolding toggle_chip
toggle_chip-IsToggled id p h = clicked-IsToggled id p.default_channels h

-- No default channel stands twice for a profile.
abbrev pub IsClean : ConfigPayload → Type 0
IsClean config = All (λ (p : ProfileRecord). Nodup p.default_channels) config.profiles

All-change_at :
    {A : Type 0} (P : A → Type 0) (i : ℕ) (change : A → A) (xs : List A)
    → ((x : A) → P x → P (change x))
    → All P xs
    → All P (change_at i change xs)
unfolding change_at
All-change_at P i change [] keeps h = tt
All-change_at P zero change (x ∷ xs) keeps h = (keeps x h.0, h.1)
All-change_at P (suc i) change (x ∷ xs) keeps h = (h.0, All-change_at P i change xs keeps h.1)

All-remove_at :
    {A : Type 0} (P : A → Type 0) (i : ℕ) (xs : List A) → All P xs → All P (remove_at i xs)
unfolding remove_at
All-remove_at P i [] h = tt
All-remove_at P zero (x ∷ xs) h = h.1
All-remove_at P (suc i) (x ∷ xs) h = (h.0, All-remove_at P i xs h.1)

ids-change_at :
    (i : ℕ) (change : ChannelInstance → ChannelInstance) (cs : List ChannelInstance)
    → ((c : ChannelInstance) → (change c).id ≡ c.id)
    → map (λ (c : ChannelInstance). c.id) (change_at i change cs)
      ≡ map (λ (c : ChannelInstance). c.id) cs
unfolding change_at
ids-change_at i change [] same = refl
ids-change_at zero change (c ∷ cs) same =
    ap (λ id. id ∷ map (λ (d : ChannelInstance). d.id) cs) (same c)
ids-change_at (suc i) change (c ∷ cs) same =
    ap (λ rest. c.id ∷ rest) (ids-change_at i change cs same)

abbrev pub channel_ids : ConfigPayload → List Text
channel_ids config = map (λ (c : ChannelInstance). c.id) config.channels

prune_profile-Nodup :
    (ids : List Text) (p : ProfileRecord)
    → Nodup p.default_channels
    → Nodup (prune_profile ids p).0.default_channels
unfolding prune_profile
prune_profile-Nodup ids p h =
    let kept = filter (λ id. has ids id) p.default_channels in
    elim (Bool-cases (eqb (length kept) (length p.default_channels))) [
      | inl same ↦ rw same h
      | inr fewer ↦ rw fewer (Nodup-filter _ p.default_channels h)
    ]

prune_profiles-Nodup :
    (ids : List Text) (profiles : List ProfileRecord)
    → All (λ (p : ProfileRecord). Nodup p.default_channels) profiles
    → All (λ (p : ProfileRecord). Nodup p.default_channels) (prune_profiles ids profiles).0
unfolding prune_profiles
prune_profiles-Nodup ids [] h = tt
prune_profiles-Nodup ids (p ∷ profiles) h =
    (prune_profile-Nodup ids p h.0, prune_profiles-Nodup ids profiles h.1)

-- Ids of instances are unique, and no default channel stands twice for a profile.
abbrev pub IsTidy : ConfigPayload → Type 0
IsTidy config = IsClean config × Nodup (channel_ids config)

pruned-IsTidy : (config : ConfigPayload) → IsTidy config → IsTidy (pruned config)
unfolding pruned prune_default_channels_to_enabled
pruned-IsTidy config (clean, unique) =
    (prune_profiles-Nodup (enabled_ids config.channels) config.profiles clean, unique)

ids-remove_channel :
    (id : Text) (cs : List ChannelInstance)
    → map (λ (c : ChannelInstance). c.id) (remove_channel id cs)
      ≡ remove_first id (map (λ (c : ChannelInstance). c.id) cs)
unfolding remove_channel remove_first
ids-remove_channel id [] = refl
ids-remove_channel id (c ∷ cs) = elim (Bool-cases (c.id == id)) [
  | inl same ↦ rw same refl
  | inr other ↦ rw other (ap (λ rest. c.id ∷ rest) (ids-remove_channel id cs))
]

apply_edit-IsTidy :
    (edit : PanelEdit) (config : ConfigPayload) → IsTidy config → IsTidy (apply_edit edit config)
unfolding apply_edit
apply_edit-IsTidy (toggle_default i id) config (h, u) = (
  All-change_at _ i (toggle_chip id) config.profiles (λ p k. (toggle_chip-IsToggled id p k).0) h,
  u,
)
apply_edit-IsTidy (name_profile i name) config (h, u) =
    (All-change_at _ i _ config.profiles (λ p k. k) h, u)
apply_edit-IsTidy (set_token i token) config (h, u) =
    (All-change_at _ i _ config.profiles (λ p k. k) h, u)
apply_edit-IsTidy (remove_profile i) config (h, u) = (All-remove_at _ i config.profiles h, u)
apply_edit-IsTidy (add_profile id) config (h, u) = (All-append _ config.profiles _ h (tt, tt), u)
apply_edit-IsTidy (label_channel i label) config (h, u) =
    (h, subst Nodup (sym (ids-change_at i _ config.channels (λ c. refl))) u)
apply_edit-IsTidy (enable_channel i enabled) config (h, u) =
    pruned-IsTidy _ (h, subst Nodup (sym (ids-change_at i _ config.channels (λ c. refl))) u)
apply_edit-IsTidy (delete_channel id) config (h, u) = pruned-IsTidy _ (
  h,
  subst Nodup (sym (ids-remove_channel id config.channels))
      (Nodup-remove_first id (channel_ids config) u),
)

-- Whatever is edited on the cards, in any order, deletions included: if the ids of the instances were
-- unique and no default channel stood twice for a profile, both are so afterwards; and one more click
-- on a chip of any profile takes the channel out of its default channels when it is there, puts it in
-- when it is not, and leaves all others.
pub apply_edits-IsTidy :
    (edits : List PanelEdit) (config : ConfigPayload)
    → IsTidy config
    → IsTidy (apply_edits edits config)
      × All
          (λ (p : ProfileRecord).
            (id : Text) → IsToggled id p.default_channels (toggle_chip id p).default_channels)
          (apply_edits edits config).profiles
unfolding apply_edits
apply_edits-IsTidy [] config h =
    (h, All-of_mem _ config.profiles (λ p m id. toggle_chip-IsToggled id p (All-mem _ _ h.0 m)))
apply_edits-IsTidy (edit ∷ edits) config h =
    apply_edits-IsTidy edits (apply_edit edit config) (apply_edit-IsTidy edit config h)
