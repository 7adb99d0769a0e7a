-- ===== src/Dispatch/FanOut.antt =====
-- The fan-out of src/dispatch/dispatch-service.ts over the in-memory queue.
use notify_hub.Base.{
  suc, Option, none, some, List, [], ◌∷◌, ◌++◌, map, map-append, append_assoc, append-nil, Text,
  ◌≡◌, refl, sym, ap, ◌∙◌,
}
use notify_hub.Core.{DispatchJob, DeliveryJob, ProfileRecord}
use notify_hub.Db.{Db}
use notify_hub.Ports.{Externals, Io, Outcome, ok, raise, World, DeliveryOutcome, QueuePort}
use notify_hub.Ports.Keeps.{Keeps}
use notify_hub.Queue.{in_memory_queue}
use notify_hub.Queue.Laws.{enqueue_delivery_lem, outcome_of}
use notify_hub.Dispatch.{enqueue_each, handle_dispatch, targets, fan_out}

abbrev pub channels_of : List DeliveryOutcome → List Text
channels_of outcomes = map (λ o. o.channel) outcomes

module _ (x : Externals) (h : DeliveryJob → Io (Unit {0}))
    (keeps : (j : DeliveryJob) → Keeps (h j)) where
  abbrev pub queue : QueuePort
  queue = in_memory_queue x none (some h)

  -- After the loop every channel has its outcome, in order, and the loop has not been ended by any.
  pub record IsFannedOut (channels : List Text) (w : World) (r : Outcome (Unit {0}) × World)
      : Type 0 where
    pub resolved : r.0 ≡ ok tt
    pub outcomes : channels_of r.1.deliveries ≡ channels_of w.deliveries ++ channels
    pub db : r.1.db ≡ w.db

  channels_of-outcome :
      (os : List DeliveryOutcome) (c : Text) (r : Outcome (Unit {0}))
      → channels_of (os ++ outcome_of c r ∷ []) ≡ channels_of os ++ c ∷ []
  channels_of-outcome os c (ok u) = map-append _ os _
  channels_of-outcome os c (raise e) = map-append _ os _

  enqueue_each-IsFannedOut :
      (job : DispatchJob) (id : Text) (channels : List Text) (w : World)
      → IsFannedOut channels w (enqueue_each queue job id channels w)
  unfolding enqueue_each
  enqueue_each-IsFannedOut job id [] w = record {
    resolved = refl;
    outcomes = sym (append-nil _);
    db = refl;
  }
  enqueue_each-IsFannedOut job id (c ∷ channels) w =
      let one : DeliveryJob = record {
        notification = job.notification;
        channel = c;
        dispatch_job_id = id;
      } in
      let (done, recorded, same) = enqueue_delivery_lem x none h one w (keeps one) in
      let rest = enqueue_each-IsFannedOut job id channels (queue.enqueue_delivery one w).1 in
      rw done (record {
        resolved = rest.resolved;
        outcomes =
            rest.outcomes
            ∙ ap (λ (os : List Text). os ++ channels)
                (ap channels_of recorded ∙ channels_of-outcome w.deliveries c _)
            ∙ append_assoc (channels_of w.deliveries) (c ∷ []) channels;
        db = rest.db ∙ same;
      })

  -- With a delivery handler that leaves the tables and the outcomes alone, handling a job resolves,
  -- records one outcome for each of its targets, in order, and leaves the tables alone.
  pub handle_dispatch-IsFannedOut :
      (profile_repo : Option (Db → Text → Option ProfileRecord)) (job : DispatchJob) (w : World)
      → IsFannedOut (targets profile_repo w.db job) w (handle_dispatch x queue profile_repo job w)
  unfolding handle_dispatch fan_out
  handle_dispatch-IsFannedOut profile_repo job w = over (targets profile_repo w.db job)
    where
      over : (channels : List Text) → IsFannedOut channels w (fan_out x queue job channels w)
      over [] = record { resolved = refl; outcomes = sym (append-nil _); db = refl }
      over (c ∷ channels) =
          let all =
            enqueue_each-IsFannedOut job (x.uuid w.uuids_drawn) (c ∷ channels)
              (record w { uuids_drawn = suc w.uuids_drawn }) in
          record { resolved = all.resolved; outcomes = all.outcomes; db = all.db }
