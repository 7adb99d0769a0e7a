-- ===== src/Queue/Laws.antt =====
-- The two enqueuing operations of src/queue/in-memory-queue.ts
use notify_hub.Base.{suc, true, false, Option, none, some, [], ◌∷◌, ◌++◌, Text, ◌≡◌, arith}
use notify_hub.Core.{DispatchJob, DeliveryJob}
use notify_hub.Ports.{Externals, Io, Outcome, ok, raise, World, DeliveryOutcome}
use notify_hub.Ports.Keeps.{Keeps}
use notify_hub.Queue.{in_memory_queue}

abbrev pub outcome_of : Text → Outcome (Unit {0}) → DeliveryOutcome
outcome_of channel (ok u) = record { channel = channel; ok = true; error = none }
outcome_of channel (raise e) = record { channel = channel; ok = false; error = some e }

-- The world after the job id is drawn.
abbrev pub drawn : World → World
drawn w = record w { uuids_drawn = suc w.uuids_drawn }

module _ (x : Externals) (d : Option (DispatchJob → Io (Unit {0})))
    (h : DeliveryJob → Io (Unit {0})) (job : DeliveryJob) (w : World) (k : Keeps (h job)) where
  -- With a handler that leaves the tables and the outcomes alone, `enqueueDelivery` resolves to the id,
  -- also when the handler fails, records its outcome last, and leaves the tables alone.
  pub enqueue_delivery_lem :
      let r = (in_memory_queue x d (some h)).enqueue_delivery job w in
      (r.0 ≡ ok (x.uuid w.uuids_drawn))
      × (r.1.deliveries ≡ w.deliveries ++ outcome_of job.channel (h job (drawn w)).0 ∷ [])
      × (r.1.db ≡ w.db)
  unfolding in_memory_queue
  enqueue_delivery_lem = ground (arith, k.db (drawn w), k.deliveries (drawn w))

pub enqueue_dispatch_lem :
    (x : Externals) (h : DispatchJob → Io (Unit {0})) (d : Option (DeliveryJob → Io (Unit {0})))
    (job : DispatchJob) (w : World)
    → (in_memory_queue x (some h) d).enqueue_dispatch job w
      ≡ (ok (x.uuid w.uuids_drawn), (h job (drawn w)).1)
unfolding in_memory_queue
enqueue_dispatch_lem x h d job w = ground arith
