-- ===== src/Admin/Validation/Channels.antt =====
-- When the loop over the channels has no complaint.
use mathlib.Core.Path.{subst}
use mathlib.Core.Option.{some-injective}
use notify_hub.Base.{
  true, false, Option, none, some, List, [], ◌∷◌, map, Text, ==_iff, has, ◌≡◌, refl, sym,
  All-of_mem, ◌↔◌, inl, inr, All, Mem, Nodup, arith, Bool-cases, Option-cases,
}
use notify_hub.Base.Map.{Map, lookup}
use notify_hub.Core.{ChannelInstance}
use notify_hub.Admin.Validation.{
  valid, is_slug, check_keys, check_type, check_channel, validate_channels,
}
use notify_hub.Admin.Validation.Spec.{IsComplete, IsValidChannel}

check_keys_iff :
    (channel : ChannelInstance) (keys : List Text)
    → (check_keys channel keys ≡ none) ↔ IsComplete channel keys
unfolding check_keys
check_keys_iff channel [] = ground arith
check_keys_iff channel (key ∷ keys) = ground (arith, check_keys_iff channel keys)

check_type_iff :
    (channel : ChannelInstance) (found : Option (List Text))
    → (check_type channel found ≡ none) ↔ (
        (keys : List Text) × (found ≡ some keys)
        × (channel.enabled ≡ true → IsComplete channel keys))
unfolding check_type
check_type_iff channel none = (λ e. absurd (cc e), λ (keys, e, h). absurd (cc e))
check_type_iff channel (some keys) = (
  λ e. (keys, refl, λ on. (check_keys_iff channel keys).0 (rw on at e)),
  λ (ks, e, h). elim (Bool-cases channel.enabled) [
    | inl on ↦ rw on (
        (check_keys_iff channel keys).1
          (subst (IsComplete channel) (sym (some-injective _ _ e)) (h on)))
    | inr off ↦ rw off
  ],
)

check_channel_iff :
    (required : Map (List Text)) (seen : List Text) (channel : ChannelInstance)
    → (check_channel required seen channel ≡ none)
      ↔ ((has seen channel.id ≡ false) × IsValidChannel required channel)
unfolding check_channel
check_channel_iff required seen channel =
    let t = check_type_iff channel (lookup required channel.type) in
    elim (Bool-cases (is_slug channel.id)) [
      | inr bad ↦ rw bad (λ e. absurd (cc e), λ h. absurd (cc (h.1.0)))
      | inl good ↦ elim (Bool-cases (has seen channel.id)) [
        | inl old ↦ rw (good, old) (λ e. absurd (cc e), λ h. absurd (cc (h.0)))
        | inr new ↦ rw (good, new) (λ e. (refl, (refl, t.0 e)), λ h. t.1 h.1.1)
      ]
    ]

-- The ids in order are new, also among themselves.
abbrev pub Fresh : List Text → List Text → Type 0
Fresh seen [] = Unit
Fresh seen (id ∷ ids) = (has seen id ≡ false) × Fresh (id ∷ seen) ids

All-has-cons :
    (seen : List Text) (x : Text) (ids : List Text)
    → All (λ i. has (x ∷ seen) i ≡ false) ids ↔ ((¬ Mem x ids) × All (λ i. has seen i ≡ false) ids)
unfolding has
All-has-cons seen x [] = ground arith
All-has-cons seen x (i ∷ ids) = ground (arith, ==_iff i x, All-has-cons seen x ids)

pub Fresh-iff :
    (seen ids : List Text) → Fresh seen ids ↔ (Nodup ids × All (λ i. has seen i ≡ false) ids)
Fresh-iff seen [] = ground arith
Fresh-iff seen (i ∷ ids) = ground (arith, Fresh-iff (i ∷ seen) ids, All-has-cons seen i ids)

pub Fresh-nil_iff : (ids : List Text) → Fresh [] ids ↔ Nodup ids
unfolding has
Fresh-nil_iff ids = (
  (λ f. ((Fresh-iff [] ids).0 f).0),
  (λ n. (Fresh-iff [] ids).1 (n, All-of_mem _ ids (λ _ _. refl))),
)

pub validate_channels_iff :
    (required : Map (List Text)) (seen : List Text) (channels : List ChannelInstance)
    → (validate_channels required seen channels ≡ valid)
      ↔ (Fresh seen (map (λ c. c.id) channels) × All (IsValidChannel required) channels)
unfolding validate_channels
validate_channels_iff required seen [] = ground arith
validate_channels_iff required seen (c ∷ channels) =
    let here = check_channel_iff required seen c in
    let later = validate_channels_iff required (c.id ∷ seen) channels in
    elim (Option-cases (check_channel required seen c)) [
      | inl none' ↦
          rw (none', validate_channels)
            (
              λ e. let (f, a) = later.0 e in let (s, v) = here.0 none' in ((s, f), (v, a)),
              λ (f, a). later.1 (f.1, a.1),
            )
      | inr (message, error) ↦
          rw (error, validate_channels)
            (λ e. absurd (cc e), λ (f, a). absurd (cc (error, here.1 (f.0, a.0))))
    ]
