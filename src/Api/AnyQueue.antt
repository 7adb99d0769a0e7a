-- ===== src/Api/AnyQueue.antt =====
-- `POST /notify` over any queue: src/api/routes/notify.ts
use mathlib.Core.Option.{some-injective}
use notify_hub.Base.{
  none, List, [], ◌∷◌, ◌++◌, Text, lit, ◌≡◌, refl, ◌∙◌, ◌⊎◌, inl, inr, Option, Option-cases, some,
}
use notify_hub.Core.{Value, ProfileRecord, str}
use notify_hub.Db.{Db}
use notify_hub.Db.Channels
use notify_hub.Db.Profiles
use notify_hub.Ports.{Outcome, ok, raise, Outcome-cases, World, QueuePort, logged, error, object}
use notify_hub.Api.{
  NotifyBody, Parsed, success, failure, Reply, accepted, bad_request, unauthorized, unavailable,
  extract_bearer_token, job_of, first_unknown, unknown_channel, enqueue_job, enqueue_known,
  unknown_message, issue_message, notify_parsed, notify_as, post_notify,
}
use notify_hub.Api.Laws.{IsKnown, Parsed-cases, unknown_channel_iff}

first_unknown-missing :
    (db : Db) (ids : List Text) (id : Text)
    → first_unknown db ids ≡ some id
    → Channels.get db id ≡ none
unfolding first_unknown
first_unknown-missing db [] id e = absurd (cc e)
first_unknown-missing db (j ∷ ids) id e = elim (Option-cases (Channels.get db j)) [
  | inl missing ↦
      let named : some j ≡ some id = rw (missing, first_unknown) at e in
      rw (← some-injective j id named) missing
  | inr (c, found) ↦ first_unknown-missing db ids id (rw (found, first_unknown) at e)
]

unknown_channel-missing :
    (db : Db) (requested : Option (List Text)) (id : Text)
    → unknown_channel db requested ≡ some id
    → Channels.get db id ≡ none
unfolding unknown_channel
unknown_channel-missing db none id e = absurd (cc e)
unknown_channel-missing db (some ids) id e = first_unknown-missing db ids id e

module _ (queue : QueuePort) (safe_parse : Value → Parsed) (authorization : Option Text)
    (input : Value) (w : World) where
  abbrev pub answered : Outcome Reply × World
  answered = post_notify queue safe_parse authorization input w

  -- What the queue makes of the job, and the world that it leaves.
  abbrev pub enqueued : ProfileRecord → NotifyBody → Outcome Text × World
  enqueued profile body = queue.enqueue_dispatch (job_of profile body) w

  -- The world after the route's line on the queue's error.
  abbrev pub reported : Text → World → World
  reported e w' = record w' {
    events =
        w'.events
        ++ logged (record {
          level = error;
          fields = object ((lit "err", str e) ∷ []);
          msg = lit "enqueueDispatch failed; returning 503";
        })
          ∷ [];
  }

  -- The queue took the job, and the reply is 202 with its id; or it rejected, and the reply is 503.
  abbrev pub IsHandedOn : ProfileRecord → NotifyBody → Type 0
  IsHandedOn profile body =
      ((id : Text) × ((enqueued profile body).0 ≡ ok id)
        × (answered ≡ (ok (accepted id), (enqueued profile body).1)))
      ⊎ ((e : Text) × ((enqueued profile body).0 ≡ raise e)
          × (answered ≡ (ok unavailable, reported e (enqueued profile body).1)))

  -- The token resolves to this profile, and the body matches the schema.
  abbrev pub IsRead : ProfileRecord → NotifyBody → Type 0
  IsRead profile body =
      (Profiles.resolve_by_token w.db (extract_bearer_token authorization) ≡ some profile)
      × (safe_parse input ≡ success body)

  -- Nobody has the token; or the body does not match the schema; or it does, but requests a channel
  -- that does not exist, which the reply names.
  abbrev pub IsRefused : Reply → Type 0
  IsRefused reply =
      ((Profiles.resolve_by_token w.db (extract_bearer_token authorization) ≡ none)
        × (reply ≡ unauthorized))
      ⊎ (((issue : Option Text) × (safe_parse input ≡ failure issue)
            × (reply ≡ bad_request (issue_message issue)))
          ⊎ ((profile : ProfileRecord) × (body : NotifyBody) × IsRead profile body
              × ((id : Text) × (Channels.get w.db id ≡ none)
                  × (¬ IsKnown w.db body.channels)
                  × (reply ≡ bad_request (unknown_message id)))))

  enqueue_job-IsHandedOn :
      (profile : ProfileRecord) (body : NotifyBody)
      → answered ≡ enqueue_job queue (job_of profile body) w
      → IsHandedOn profile body
  unfolding enqueue_job
  enqueue_job-IsHandedOn profile body e = elim (Outcome-cases (enqueued profile body).0) [
    | inl (id, taken) ↦ inl (id, taken, e ∙ rw taken refl)
    | inr (message, failed) ↦ inr (message, failed, e ∙ rw failed refl)
  ]

  -- Over any queue, `POST /notify` never rejects. Either the token resolves to a profile, the body
  -- matches the schema, and every channel that it requests exists: then the job is handed to the
  -- queue, whose world is left, and the reply is 202 with the id that the queue resolves to, or 503
  -- after one error line when the queue rejects. Or the reply is 401 or 400 for one of those three
  -- reasons, and the queue is not called: nothing at all has changed.
  pub post_notify-any_queue :
      ((profile : ProfileRecord) × (body : NotifyBody) × IsRead profile body
        × IsKnown w.db body.channels
        × IsHandedOn profile body)
      ⊎ ((reply : Reply) × IsRefused reply × (answered ≡ (ok reply, w)))
  unfolding post_notify notify_as notify_parsed enqueue_known
  post_notify-any_queue =
      elim (Option-cases (Profiles.resolve_by_token w.db (extract_bearer_token authorization))) [
        | inl nobody ↦ inr (unauthorized, inl (nobody, refl), rw nobody refl)
        | inr (profile, resolved) ↦ elim (Parsed-cases (safe_parse input)) [
          | inr (issue, wrong) ↦ inr (
            bad_request (issue_message issue),
            inr (inl (issue, wrong, refl)),
            rw resolved (rw wrong refl),
          )
          | inl (body, parsed) ↦ elim (Option-cases (unknown_channel w.db body.channels)) [
            | inl none' ↦ inl (
              profile,
              body,
              (resolved, parsed),
              (unknown_channel_iff w.db body.channels).0 none',
              enqueue_job-IsHandedOn profile body (rw resolved (rw parsed (rw none' refl))),
            )
            | inr (id, unknown) ↦ inr (
              bad_request (unknown_message id),
              inr (
                  inr (
                    profile,
                    body,
                    (resolved, parsed),
                    (
                      id,
                      unknown_channel-missing w.db body.channels id unknown,
                      λ known.
                          absurd (cc (unknown, (unknown_channel_iff w.db body.channels).1 known)),
                      refl,
                    ),
                  )),
              rw resolved (rw parsed (rw unknown refl)),
            )
          ]
        ]
      ]
