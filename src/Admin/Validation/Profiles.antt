-- ===== src/Admin/Validation/Profiles.antt =====
-- When the loop over the profiles has no complaint.
use mathlib.Core.Path.{subst}
use mathlib.Core.Option.{some-injective}
use notify_hub.Base.{
  true, false, none, some, List, [], ◌∷◌, map, Text, ==_iff, has, ◌≡◌, refl, sym, ap, ◌∙◌, ==_refl,
  mem-map, ◌↔◌, inl, inr, All, Mem, Nodup, arith, Bool-cases, Option-cases,
}
use notify_hub.Core.{ChannelInstance, ProfileRecord}
use notify_hub.Admin.Validation.{
  valid, channel_by_id, check_ref, check_refs, check_profile, validate_profiles,
}
use notify_hub.Admin.Validation.Spec.{IsEnabledRef}
use notify_hub.Admin.Validation.Channels.{Fresh}

pub channel_by_id_sound :
    (channels : List ChannelInstance) (id : Text) (c : ChannelInstance)
    → channel_by_id channels id ≡ some c
    → Mem c channels × (c.id ≡ id)
unfolding channel_by_id
channel_by_id_sound [] id c e = absurd (cc e)
channel_by_id_sound (d ∷ channels) id c e = elim (Option-cases (channel_by_id channels id)) [
  | inl missing ↦ ground (arith, ==_iff d.id id)
  | inr (later, found) ↦
      let (m, same) = channel_by_id_sound channels id c (ground arith) in (inr m, same)
]

pub mem-channel_by_id :
    (channels : List ChannelInstance) (c : ChannelInstance)
    → Nodup (map (λ (d : ChannelInstance). d.id) channels)
    → Mem c channels
    → channel_by_id channels c.id ≡ some c
unfolding channel_by_id
mem-channel_by_id [] c h m = absurd m
mem-channel_by_id (d ∷ channels) c h (inl e) = elim (Option-cases (channel_by_id channels c.id)) [
  | inl missing ↦ rw missing (rw e (rw (==_refl d.id)))
  | inr (later, found) ↦
      let (m, same) = channel_by_id_sound channels c.id later found in
      absurd (
        h.0 (
          subst (λ i. Mem i (map (λ (d : ChannelInstance). d.id) channels))
            (same ∙ ap (λ (d : ChannelInstance). d.id) e)
            (mem-map (λ (d : ChannelInstance). d.id) later channels m)))
]
mem-channel_by_id (d ∷ channels) c h (inr m) = rw (mem-channel_by_id channels c h.1 m)

module _ (channels : List ChannelInstance)
    (unique : Nodup (map (λ (d : ChannelInstance). d.id) channels)) where
  check_ref_iff :
      (p : ProfileRecord) (ref : Text)
      → (check_ref p ref (channel_by_id channels ref) ≡ none) ↔ IsEnabledRef channels ref
  unfolding check_ref
  check_ref_iff p ref = elim (Option-cases (channel_by_id channels ref)) [
    | inl missing ↦ rw missing (
      λ e. absurd (cc e),
      λ (c, m, same, on).
          let found : channel_by_id channels ref ≡ some c =
            subst (λ r. channel_by_id channels r ≡ some c) same
              (mem-channel_by_id channels c unique m) in
          absurd (cc (missing, found)),
    )
    | inr (c, found) ↦
        let (m, same) = channel_by_id_sound channels ref c found in
        rw found (
          λ e. (c, m, same, ground arith),
          λ (d, there, named, on).
              let again : channel_by_id channels ref ≡ some d =
                subst (λ r. channel_by_id channels r ≡ some d) named
                  (mem-channel_by_id channels d unique there) in
              let on' : c.enabled ≡ true =
                subst (λ (i : ChannelInstance). i.enabled ≡ true)
                  (some-injective d c (sym again ∙ found)) on in
              rw on',
        )
  ]

  check_refs_iff :
      (p : ProfileRecord) (refs : List Text)
      → (check_refs channels p refs ≡ none) ↔ All (IsEnabledRef channels) refs
  unfolding check_refs
  check_refs_iff p [] = ground arith
  check_refs_iff p (ref ∷ refs) =
      let here = check_ref_iff p ref in
      let later = check_refs_iff p refs in
      elim (Option-cases (check_ref p ref (channel_by_id channels ref))) [
        | inl fine ↦ rw (fine, check_refs) (λ e. (here.0 fine, later.0 e), λ a. later.1 a.1)
        | inr (message, error) ↦
            rw (error, check_refs) (λ e. absurd (cc e), λ a. absurd (cc (error, here.1 a.0)))
      ]

  check_profile_iff :
      (seen : List Text) (p : ProfileRecord)
      → (check_profile channels seen p ≡ none)
        ↔ ((has seen p.token ≡ false) × All (IsEnabledRef channels) p.default_channels)
  unfolding check_profile
  check_profile_iff seen p =
      let refs = check_refs_iff p p.default_channels in
      elim (Bool-cases (has seen p.token)) [
        | inl old ↦ rw old (λ e. absurd (cc e), λ h. absurd (cc (h.0)))
        | inr new ↦ rw new (λ e. (refl, refs.0 e), λ h. refs.1 h.1)
      ]

  pub validate_profiles_iff :
      (seen : List Text) (profiles : List ProfileRecord)
      → (validate_profiles channels seen profiles ≡ valid) ↔ (
          Fresh seen (map (λ p. p.token) profiles)
          × All (λ p. All (IsEnabledRef channels) p.default_channels) profiles)
  unfolding validate_profiles
  validate_profiles_iff seen [] = ground arith
  validate_profiles_iff seen (p ∷ profiles) =
      let here = check_profile_iff seen p in
      let later = validate_profiles_iff (p.token ∷ seen) profiles in
      elim (Option-cases (check_profile channels seen p)) [
        | inl fine ↦
            rw (fine, validate_profiles)
              (
                λ e. let (f, a) = later.0 e in let (s, v) = here.0 fine in ((s, f), (v, a)),
                λ (f, a). later.1 (f.1, a.1),
              )
        | inr (message, error) ↦
            rw (error, validate_profiles)
              (λ e. absurd (cc e), λ (f, a). absurd (cc (error, here.1 (f.0, a.0))))
      ]
