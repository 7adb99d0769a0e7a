-- ===== src/Admin/Panel/Instances/Laws.antt =====
-- What pruning the default channels and picking the required keys give.
use notify_hub.Base.{
  suc, ◌≤◌, Bool, true, Option, none, some, List, [], ◌∷◌, map, filter, has, has_iff, length, eqb,
  eqb_iff, Text, ==_iff, ◌≡◌, refl, ap, ◌∙◌, inl, inr, All, All-of_mem, All-mem, Mem, mem-filter,
  exists_of_mem-map, Bool-cases, arith, is_empty, if◌then◌else◌,
}
use notify_hub.Base.Map.{Map, lookup, insert, lookup-insert}
use notify_hub.Core.{ChannelInstance, ProfileRecord}
use notify_hub.Admin.Validation.{is_blank}
use notify_hub.Admin.Validation.Spec.{IsEnabledRef, IsComplete}
use notify_hub.Admin.Panel.Instances.{
  missing_required_keys, is_channel_config_complete, enabled_ids, prune_profile, prune_profiles,
  text_or_empty, pick_into,
}

lookup-pick_into :
    (config picked : Map Text) (keys : List Text) (key : Text)
    → lookup (pick_into config picked keys) key
      ≡ (if has keys key then some (text_or_empty (lookup config key)) else lookup picked key)
unfolding pick_into has
lookup-pick_into config picked [] key = refl
lookup-pick_into config picked (k ∷ keys) key =
    let rest =
      lookup-pick_into config (insert picked k (text_or_empty (lookup config k))) keys key in
    let inserted = lookup-insert picked k key (text_or_empty (lookup config k)) in
    ground (arith, ==_iff key k, ==_iff k key, rest, inserted)

is_blank-text_or_empty : (o : Option Text) → is_blank (some (text_or_empty o)) ≡ is_blank o
unfolding is_blank text_or_empty is_empty
is_blank-text_or_empty none = refl
is_blank-text_or_empty (some text) = refl

-- A config is complete when no required key is blank.
pub is_channel_config_complete-IsComplete :
    (channel : ChannelInstance) (keys : List Text)
    → is_channel_config_complete channel keys ≡ true
    → IsComplete channel keys
unfolding is_channel_config_complete missing_required_keys
is_channel_config_complete-IsComplete channel [] h = tt
is_channel_config_complete-IsComplete channel (key ∷ keys) h =
    elim (Bool-cases (is_blank (lookup channel.config key))) [
      | inl blank ↦
          let longer = rw blank at h in
          absurd (
            omega (arith, (eqb_iff (suc (length (missing_required_keys channel keys))) 0).0 longer))
      | inr given ↦ (given, is_channel_config_complete-IsComplete channel keys (rw given at h))
    ]

pub IsComplete-is_channel_config_complete :
    (channel : ChannelInstance) (keys : List Text)
    → IsComplete channel keys
    → is_channel_config_complete channel keys ≡ true
unfolding is_channel_config_complete missing_required_keys
IsComplete-is_channel_config_complete channel [] h = refl
IsComplete-is_channel_config_complete channel (key ∷ keys) h =
    rw h.0 (IsComplete-is_channel_config_complete channel keys h.1)

length-filter-le : {A : Type 0} (p : A → Bool) (xs : List A) → length (filter p xs) ≤ length xs
length-filter-le p [] = omega arith
length-filter-le p (x ∷ xs) = ground (arith, length-filter-le p xs)

All-of_length :
    {A : Type 0} (p : A → Bool) (xs : List A)
    → length (filter p xs) ≡ length xs
    → All (λ x. p x ≡ true) xs
All-of_length p [] h = tt
All-of_length p (x ∷ xs) h = elim (Bool-cases (p x)) [
  | inl passes ↦
      let same : suc (length (filter p xs)) ≡ suc (length xs) = rw passes at h in
      (passes, All-of_length p xs (omega (arith, same)))
  | inr fails ↦
      let fewer : length (filter p xs) ≡ suc (length xs) = rw fails at h in
      absurd (omega (arith, fewer, length-filter-le p xs))
]

-- A default channel of a pruned profile is one of the ids.
prune_profile-Mem :
    (ids : List Text) (profile : ProfileRecord)
    → All (λ id. Mem id ids) (prune_profile ids profile).0.default_channels
unfolding prune_profile
prune_profile-Mem ids profile =
    let kept = filter (λ id. has ids id) profile.default_channels in
    elim (Bool-cases (eqb (length kept) (length profile.default_channels))) [
      | inl same ↦ rw same (
          All-of_mem (λ id. Mem id ids) profile.default_channels
            (λ id mem. (has_iff ids id).0 (
              All-mem (λ x. has ids x ≡ true) profile.default_channels
                (All-of_length (λ x. has ids x) profile.default_channels
                  ((eqb_iff (length kept) (length profile.default_channels)).0 same))
                mem)))
      | inr fewer ↦ rw fewer (
          All-of_mem (λ id. Mem id ids) kept
            (λ id mem.
              (has_iff ids id).0
                ((mem-filter (λ x. has ids x) id profile.default_channels).0 mem).1))
    ]

enabled_ids-IsEnabledRef :
    (channels : List ChannelInstance) (id : Text)
    → Mem id (enabled_ids channels)
    → IsEnabledRef channels id
enabled_ids-IsEnabledRef channels id mem =
    let (channel, there, same) =
      exists_of_mem-map (λ c. c.id) id (filter (λ c. c.enabled) channels) mem in
    let (among, enabled) = (mem-filter (λ c. c.enabled) channel channels).0 there in
    (channel, among, same, enabled)

pub prune_profiles-IsEnabledRef :
    (channels : List ChannelInstance) (profiles : List ProfileRecord)
    → All
        (λ p. All (IsEnabledRef channels) p.default_channels)
        (prune_profiles (enabled_ids channels) profiles).0
unfolding prune_profiles
prune_profiles-IsEnabledRef channels [] = tt
prune_profiles-IsEnabledRef channels (profile ∷ profiles) =
    let ids = enabled_ids channels in
    let pruned = (prune_profile ids profile).0 in
    (
      All-of_mem (IsEnabledRef channels) pruned.default_channels (λ id mem.
          enabled_ids-IsEnabledRef channels id
            (All-mem (λ x. Mem x ids) pruned.default_channels (prune_profile-Mem ids profile) mem)),
      prune_profiles-IsEnabledRef channels profiles,
    )

token-prune_profile :
    (ids : List Text) (profile : ProfileRecord)
    → (prune_profile ids profile).0.token ≡ profile.token
unfolding prune_profile
token-prune_profile ids profile =
    let kept = filter (λ id. has ids id) profile.default_channels in
    elim (Bool-cases (eqb (length kept) (length profile.default_channels))) [
      | inl same ↦ rw same refl
      | inr fewer ↦ rw fewer refl
    ]

pub tokens-prune_profiles :
    (ids : List Text) (profiles : List ProfileRecord)
    → map (λ p. p.token) (prune_profiles ids profiles).0 ≡ map (λ p. p.token) profiles
unfolding prune_profiles
tokens-prune_profiles ids [] = refl
tokens-prune_profiles ids (profile ∷ profiles) =
    ap (λ t. t ∷ map (λ p. p.token) (prune_profiles ids profiles).0)
      (token-prune_profile ids profile)
    ∙ ap (λ l. profile.token ∷ l) (tokens-prune_profiles ids profiles)

-- The keys that are picked are blank where they were.
pub is_blank-pick_into :
    (config : Map Text) (keys : List Text) (key : Text)
    → Mem key keys
    → is_blank (lookup (pick_into config [] keys) key) ≡ is_blank (lookup config key)
is_blank-pick_into config keys key mem =
    ap is_blank (
      lookup-pick_into config [] keys key
      ∙ ap (λ b. if b then some (text_or_empty (lookup config key)) else lookup {V = Text} [] key)
          ((has_iff keys key).1 mem))
    ∙ is_blank-text_or_empty (lookup config key)
