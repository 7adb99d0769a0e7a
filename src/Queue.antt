-- ===== src/Queue.antt =====
-- src/queue/in-memory-queue.ts. A handler is `none` until it is registered.
pub mod Laws
use notify_hub.Base.{Bool, true, false, Option, none, some, [], ◌∷◌, ◌++◌, Text}
use notify_hub.Core.{DispatchJob, DeliveryJob}
use notify_hub.Ports.{
  Externals, Io, ◌>>=◌, ◌>>◌, pure, try_catch, random_uuid, DeliveryOutcome, World, QueuePort, ok,
}

-- `this.deliveries.push(…)`
push_outcome : DeliveryOutcome → Io (Unit {0})
push_outcome outcome w = (ok tt, record w { deliveries = w.deliveries ++ outcome ∷ [] })

run_dispatch : Option (DispatchJob → Io (Unit {0})) → DispatchJob → Io (Unit {0})
run_dispatch none job = pure tt
run_dispatch (some handler) job = try_catch (handler job) (λ _. pure tt) (λ _. pure tt)

run_delivery : Option (DeliveryJob → Io (Unit {0})) → DeliveryJob → Io (Unit {0})
unfolding push_outcome
run_delivery none job = pure tt
run_delivery (some handler) job =
    try_catch (handler job)
      (λ _. push_outcome (record { channel = job.channel; ok = true; error = none }))
      (λ e. push_outcome (record { channel = job.channel; ok = false; error = some e }))

unfoldable pub in_memory_queue :
    Externals
    → Option (DispatchJob → Io (Unit {0}))
    → Option (DeliveryJob → Io (Unit {0}))
    → QueuePort
unfolding run_dispatch run_delivery
in_memory_queue x dispatch_handler delivery_handler = record {
  enqueue_dispatch = λ job. do
    job_id ← random_uuid x
    run_dispatch dispatch_handler job
    pure job_id;
  enqueue_delivery = λ job. do
    job_id ← random_uuid x
    run_delivery delivery_handler job
    pure job_id;
  health = pure true;
}
