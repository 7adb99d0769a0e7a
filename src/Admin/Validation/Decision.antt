-- ===== src/Admin/Validation/Decision.antt =====
-- The validator of src/admin/config-validation.ts against the specification.
use notify_hub.Base.{List, [], Text, ◌≡◌, refl, ◌↔◌, ◌⊎◌, inl, inr}
use notify_hub.Base.Map.{Map}
use notify_hub.Admin.Validation.{
  ConfigPayload, ConfigValidation, valid, invalid, validate_channels, validate_config_payload,
}
use notify_hub.Admin.Validation.Spec.{IsValidConfig}
use notify_hub.Admin.Validation.Channels.{Fresh-nil_iff, validate_channels_iff}
use notify_hub.Admin.Validation.Profiles.{validate_profiles_iff}

pub ConfigValidation-cases :
    (v : ConfigValidation) → (v ≡ valid) ⊎ ((message : Text) × (v ≡ invalid message))
ConfigValidation-cases valid = inl refl
ConfigValidation-cases (invalid message) = inr (message, refl)

-- The validator accepts a payload exactly when it is a valid configuration.
pub validate_config_payload_iff :
    (payload : ConfigPayload) (required : Map (List Text))
    → (validate_config_payload payload required ≡ valid) ↔ IsValidConfig required payload
unfolding validate_config_payload
validate_config_payload_iff payload required =
    let first = validate_channels_iff required [] payload.channels in
    elim (ConfigValidation-cases (validate_channels required [] payload.channels)) [
      | inl fine ↦
          let (f, a) = first.0 fine in
          let ids = (Fresh-nil_iff _).0 f in
          let second = validate_profiles_iff payload.channels ids [] payload.profiles in
          rw (fine, validate_config_payload)
            (
              λ e.
                  let (t, r) = second.0 e in
                  record { ids = ids; channels = a; tokens = (Fresh-nil_iff _).0 t; refs = r },
              λ h. second.1 ((Fresh-nil_iff _).1 h.tokens, h.refs),
            )
      | inr (message, error) ↦
          rw (error, validate_config_payload)
            (
              λ e. absurd (cc e),
              λ h. absurd (cc (error, first.1 ((Fresh-nil_iff _).1 h.ids, h.channels))),
            )
    ]
