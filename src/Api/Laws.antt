-- ===== src/Api/Laws.antt =====
-- `POST /notify` with the in-memory queue behind it: src/api/routes/notify.ts
use notify_hub.Base.{
  Option, none, some, List, [], ◌∷◌, ◌++◌, Text, ◌≡◌, refl, ◌↔◌, ◌⊎◌, inl, inr, All, arith,
  Option-cases,
}
use notify_hub.Core.{Value, ProfileRecord, ChannelInstance}
use notify_hub.Db.{Db}
use notify_hub.Db.Channels
use notify_hub.Db.Profiles
use notify_hub.Ports.{Externals, Outcome, ok, World}
use notify_hub.Container.{registered_queue}
use notify_hub.Container.Pipeline.{registered_queue-fan_out}
use notify_hub.Dispatch.{targets}
use notify_hub.Dispatch.FanOut.{channels_of}
use notify_hub.Api.{
  NotifyBody, Parsed, success, failure, Reply, accepted, bad_request, unauthorized,
  extract_bearer_token, job_of, first_unknown, unknown_channel, enqueue_job, enqueue_known,
  unknown_message, issue_message, notify_parsed, notify_as, post_notify,
}

abbrev pub Known : Db → Text → Type 0
Known db id = (c : ChannelInstance) × (Channels.get db id ≡ some c)

-- Every id that the body requests is an instance's.
abbrev pub IsKnown : Db → Option (List Text) → Type 0
IsKnown db none = Unit
IsKnown db (some ids) = All (Known db) ids

first_unknown_iff : (db : Db) (ids : List Text) → (first_unknown db ids ≡ none) ↔ All (Known db) ids
unfolding first_unknown
first_unknown_iff db [] = ground arith
first_unknown_iff db (id ∷ ids) =
    let later = first_unknown_iff db ids in
    elim (Option-cases (Channels.get db id)) [
      | inl missing ↦ rw missing (λ e. absurd (cc e), λ h. absurd (cc (h.0.1)))
      | inr (c, found) ↦ rw (found, first_unknown) (λ e. ((c, refl), later.0 e), λ h. later.1 h.1)
    ]

pub unknown_channel_iff :
    (db : Db) (requested : Option (List Text))
    → (unknown_channel db requested ≡ none) ↔ IsKnown db requested
unfolding unknown_channel
unknown_channel_iff db none = ground arith
unknown_channel_iff db (some ids) = first_unknown_iff db ids

pub Parsed-cases :
    (p : Parsed)
    → ((body : NotifyBody) × (p ≡ success body)) ⊎ ((issue : Option Text) × (p ≡ failure issue))
Parsed-cases (success body) = inl (body, refl)
Parsed-cases (failure issue) = inr (issue, refl)

module _ (x : Externals) (safe_parse : Value → Parsed) (authorization : Option Text) (input : Value)
    (w : World) where
  -- The request is accepted for this profile with this body.
  abbrev pub IsAccepted : ProfileRecord → NotifyBody → Type 0
  IsAccepted profile body =
      (Profiles.resolve_by_token w.db (extract_bearer_token authorization) ≡ some profile)
      × (safe_parse input ≡ success body)
      × IsKnown w.db body.channels

  abbrev pub notified : Outcome Reply × World
  notified = post_notify (registered_queue x) safe_parse authorization input w

  -- It is answered with 202 and the id of its job, and each target of the job has one outcome.
  abbrev pub IsNotified : ProfileRecord → NotifyBody → Type 0
  IsNotified profile body =
      (notified.0 ≡ ok (accepted (x.uuid w.uuids_drawn)))
      × (channels_of notified.1.deliveries
          ≡ channels_of w.deliveries ++ targets (some Profiles.get) w.db (job_of profile body))
      × (notified.1.db ≡ w.db)

  enqueue_job_lem :
      (profile : ProfileRecord) (body : NotifyBody)
      → let r = enqueue_job (registered_queue x) (job_of profile body) w in
        (r.0 ≡ ok (accepted (x.uuid w.uuids_drawn)))
        × (channels_of r.1.deliveries
            ≡ channels_of w.deliveries ++ targets (some Profiles.get) w.db (job_of profile body))
        × (r.1.db ≡ w.db)
  unfolding enqueue_job
  enqueue_job_lem profile body =
      let (resolved, outcomes, db) = registered_queue-fan_out x (job_of profile body) w in
      rw resolved (refl, outcomes, db)

  pub post_notify-accepted :
      (profile : ProfileRecord) (body : NotifyBody)
      → IsAccepted profile body
      → IsNotified profile body
  unfolding post_notify notify_as notify_parsed enqueue_known
  post_notify-accepted profile body (resolved, parsed, known) = rw resolved (
      rw parsed
        (rw ((unknown_channel_iff w.db body.channels).1 known) (enqueue_job_lem profile body)))

  -- With the in-memory queue behind it, `POST /notify` never rejects and never replies 503. Either the token resolves to a profile, the
  -- body matches the schema, and every channel that it requests exists: then the reply is 202 with
  -- the id of the job, and every target of the job has exactly one new outcome, in order. Or the
  -- reply is 401 or 400, and nothing at all has changed.
  pub post_notify_lem :
      ((profile : ProfileRecord) × (body : NotifyBody) × IsAccepted profile body
        × IsNotified profile body)
      ⊎ ((notified ≡ (ok unauthorized, w))
          ⊎ ((message : Text) × (notified ≡ (ok (bad_request message), w))))
  unfolding post_notify notify_as notify_parsed enqueue_known
  post_notify_lem =
      elim (Option-cases (Profiles.resolve_by_token w.db (extract_bearer_token authorization))) [
        | inl nobody ↦ inr (inl (rw nobody refl))
        | inr (profile, resolved) ↦ elim (Parsed-cases (safe_parse input)) [
          | inr (issue, wrong) ↦ inr (inr (issue_message issue, rw resolved (rw wrong refl)))
          | inl (body, parsed) ↦ elim (Option-cases (unknown_channel w.db body.channels)) [
            | inl known ↦
                let met : IsAccepted profile body =
                  (resolved, parsed, (unknown_channel_iff w.db body.channels).0 known) in
                inl (profile, body, met, post_notify-accepted profile body met)
            | inr (id, missing) ↦
                inr (inr (unknown_message id, rw resolved (rw parsed (rw missing refl))))
          ]
        ]
      ]
