-- ===== src/Container/Pipeline.antt =====
-- The whole pipeline: enqueue, dispatch, deliver.
use notify_hub.Base.{some, ◌++◌, ◌≡◌, refl, arith}
use notify_hub.Core.{DispatchJob, DeliveryJob}
use notify_hub.Db.Profiles
use notify_hub.Ports.{Externals, ok, World}
use notify_hub.Ports.Keeps.{Keeps}
use notify_hub.Queue.Laws.{enqueue_dispatch_lem, drawn}
use notify_hub.Dispatch.{targets}
use notify_hub.Dispatch.FanOut.{handle_dispatch-IsFannedOut, channels_of}
use notify_hub.Delivery.Laws.{deliver-Keeps}
use notify_hub.Container.{on_delivery, on_dispatch, registered_queue}

pub on_delivery-Keeps : (x : Externals) (job : DeliveryJob) → Keeps (on_delivery x job)
unfolding on_delivery
on_delivery-Keeps x job =
    let k = deliver-Keeps x job in
    record { db = λ w. ground (arith, k.db w); deliveries = λ w. ground (arith, k.deliveries w) }

-- Once a job is enqueued, its enqueuing resolves, and exactly one outcome is recorded for each
-- target of the job, in the targets' order, whichever deliveries fail; the tables are unchanged.
pub registered_queue-fan_out :
    (x : Externals) (job : DispatchJob) (w : World)
    → let r = (registered_queue x).enqueue_dispatch job w in
      (r.0 ≡ ok (x.uuid w.uuids_drawn))
      × (channels_of r.1.deliveries
          ≡ channels_of w.deliveries ++ targets (some Profiles.get) w.db job)
      × (r.1.db ≡ w.db)
unfolding registered_queue on_dispatch
registered_queue-fan_out x job w =
    let ran = enqueue_dispatch_lem x (on_dispatch x) (some (on_delivery x)) job w in
    let all =
      handle_dispatch-IsFannedOut x (on_delivery x) (on_delivery-Keeps x) (some Profiles.get) job
        (drawn w) in
    rw ran (refl, all.outcomes, all.db)
