-- ===== src/Delivery/Decision.antt =====
-- When a delivery is skipped, is sent, and is thrown back to the queue: src/delivery/delivery-service.ts
use mathlib.Core.Path.{subst}
use notify_hub.Base.{
  ℕ, true, none, some, Text, lit, ◌++◌, ◌≡◌, refl, sym, ap, ◌∙◌, ◌↔◌, ◌⊎◌, inl, inr, Bool-cases,
  Option-cases,
}
use notify_hub.Base.Map.{Map, lookup}
use notify_hub.Core.{ChannelInstance, DeliveryJob, DeliveryResult}
use notify_hub.Db.Channels
use notify_hub.Ports.{Externals, ok, raise, World, Outcome-cases}
use notify_hub.Channels.Registry.{ChannelRegistryEntry}
use notify_hub.Delivery.{deliver}
use notify_hub.Delivery.Laws.{
  IsUnavailable, attempt, deliver-skips, deliver-sent, deliver-failed, deliver-unknown_type,
}

module _ (x : Externals) (registry : Map ChannelRegistryEntry) (job : DeliveryJob) (w : World) where
  -- The job's instance is there and enabled.
  abbrev pub IsOn : ChannelInstance → Type 0
  IsOn i = (Channels.get w.db job.channel ≡ some i) × (i.enabled ≡ true)

  -- It is of a known type, and its adapter sends the message.
  abbrev pub IsSent : Type 0
  IsSent =
      (i : ChannelInstance) × IsOn i
      × ((entry : ChannelRegistryEntry) × (lookup registry i.type ≡ some entry)
          × ((attempt x registry job w i entry).0 ≡ ok tt))

  abbrev pub unknown_type : ChannelInstance → Text
  unknown_type i =
      lit "Unknown channel type \"" ++ (i.type ++ (lit "\" for instance \"" ++ (i.id ++ lit "\"")))

  -- It is of an unknown type, or its adapter rejects with this message.
  abbrev pub IsFailure : Text → Type 0
  IsFailure message =
      (i : ChannelInstance) × IsOn i
      × (((lookup registry i.type ≡ none) × (message ≡ unknown_type i))
          ⊎ ((entry : ChannelRegistryEntry) × (lookup registry i.type ≡ some entry)
              × ((attempt x registry job w i entry).0 ≡ raise message)))

  -- The promise resolves to a result without an error, with this number of attempts.
  abbrev pub IsResolved : ℕ → Type 0
  IsResolved attempts =
      (r : DeliveryResult) × ((deliver x registry job w).0 ≡ ok r)
      × (r.channel ≡ job.channel)
      × (r.ok ≡ true)
      × (r.attempts ≡ attempts)

  IsFailure-cases : (i : ChannelInstance) → IsOn i → IsSent ⊎ ((message : Text) × IsFailure message)
  IsFailure-cases i on = elim (Option-cases (lookup registry i.type)) [
    | inl unknown ↦ inr (unknown_type i, (i, on, inl (unknown, refl)))
    | inr (entry, known) ↦ elim (Outcome-cases (attempt x registry job w i entry).0) [
      | inl (_, sent) ↦ inl (i, on, (entry, known, sent))
      | inr (message, failed) ↦ inr (message, (i, on, inr (entry, known, failed)))
    ]
  ]

  delivery-cases :
      ((reason : Text) × IsUnavailable x registry job w reason)
      ⊎ (IsSent ⊎ ((message : Text) × IsFailure message))
  delivery-cases = elim (Option-cases (Channels.get w.db job.channel)) [
    | inl missing ↦ inl (lit "not-found", inl (missing, refl))
    | inr (i, stored) ↦ elim (Bool-cases i.enabled) [
      | inl on ↦ inr (IsFailure-cases i (stored, on))
      | inr off ↦ inl (lit "disabled", inr (i, stored, off, refl))
    ]
  ]

  IsResolved-skips : (reason : Text) → IsUnavailable x registry job w reason → IsResolved 0
  IsResolved-skips reason h =
      (_, ap (λ r. r.0) (deliver-skips x registry job w reason h), refl, refl, refl)

  IsResolved-sent : IsSent → IsResolved 1
  IsResolved-sent (i, (stored, on), (entry, known, sent)) = (
    _,
    ap (λ r. r.0) (deliver-sent x registry job w i entry on stored known sent),
    refl,
    refl,
    refl,
  )

  raised-failure :
      (message : Text) → IsFailure message → (deliver x registry job w).0 ≡ raise message
  raised-failure message (i, (stored, on), inl (unknown, e)) =
      ap (λ r. r.0) (deliver-unknown_type x registry job w i stored on unknown) ∙ ap raise (sym e)
  raised-failure message (i, (stored, on), inr (entry, known, failed)) =
      ap (λ r. r.0) (deliver-failed x registry job w i entry on stored known message failed)

  raise-IsFailure :
      (message : Text) → (deliver x registry job w).0 ≡ raise message → IsFailure message
  raise-IsFailure message e = elim delivery-cases [
    | inl (reason, h) ↦ let (r, same, _, _, _) = IsResolved-skips reason h in absurd (cc (e, same))
    | inr (inl sent) ↦ let (r, same, _, _, _) = IsResolved-sent sent in absurd (cc (e, same))
    | inr (inr (other, h)) ↦ let same = raised-failure other h in subst IsFailure (cc (e, same)) h
  ]

  sent-of_resolved : IsResolved 1 → IsSent
  sent-of_resolved (r, e, _, _, one) = elim delivery-cases [
    | inl (reason, h) ↦
        let (s, same, _, _, zero') = IsResolved-skips reason h in absurd (cc (e, same, one, zero'))
    | inr (inl sent) ↦ sent
    | inr (inr (message, h)) ↦ let same = raised-failure message h in absurd (cc (e, same))
  ]

  IsUnavailable-of_resolved : IsResolved 0 → (reason : Text) × IsUnavailable x registry job w reason
  IsUnavailable-of_resolved (r, e, _, _, none') = elim delivery-cases [
    | inl found ↦ found
    | inr (inl sent) ↦
        let (s, same, _, _, one) = IsResolved-sent sent in absurd (cc (e, same, one, none'))
    | inr (inr (message, h)) ↦ let same = raised-failure message h in absurd (cc (e, same))
  ]

  -- A delivery is thrown back to the queue with an error exactly if its instance is there and enabled
  -- at delivery time, and its type is unknown or its adapter, given the truncated message, rejects with
  -- that error. It resolves with one attempt exactly if its instance is there, enabled and of a known
  -- type, and the adapter sends; and with none exactly if the instance is missing or disabled. One of
  -- the three is the case.
  pub deliver_iff :
      ((message : Text) → ((deliver x registry job w).0 ≡ raise message) ↔ IsFailure message)
      × ((IsResolved 1 ↔ IsSent)
          × ((IsResolved 0 ↔ ((reason : Text) × IsUnavailable x registry job w reason))
              × (IsResolved 0
                  ⊎ (IsResolved 1
                      ⊎ ((message : Text) × ((deliver x registry job w).0 ≡ raise message))))))
  deliver_iff = (
    λ message. (raise-IsFailure message, raised-failure message),
    (
      (sent-of_resolved, IsResolved-sent),
      (
        (IsUnavailable-of_resolved, λ (reason, h). IsResolved-skips reason h),
        elim delivery-cases [
          | inl (reason, h) ↦ inl (IsResolved-skips reason h)
          | inr (inl sent) ↦ inr (inl (IsResolved-sent sent))
          | inr (inr (message, h)) ↦ inr (inr (message, raised-failure message h))
        ],
      ),
    ),
  )
