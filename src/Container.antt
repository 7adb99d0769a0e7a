-- ===== src/Container.antt =====
-- src/container.ts: `registerWorkers` over the in-memory queue. `enqueueDelivery` does not read the
-- dispatch handler, so the queue that the dispatch service is given is its delivery half.
pub mod Pipeline
pub mod Boot
use notify_hub.Base.{Option, none, some}
use notify_hub.Core.{DispatchJob, DeliveryJob}
use notify_hub.Db.Profiles
use notify_hub.Ports.{Externals, Io, ◌>>=◌, ◌>>◌, pure, QueuePort}
use notify_hub.Channels.Registry.{channel_registry}
use notify_hub.Queue.{in_memory_queue}
use notify_hub.Dispatch.{handle_dispatch}
use notify_hub.Delivery.{deliver}

-- `queue.onDelivery(async (job) => { await deliveryService.deliver(job) })`
unfoldable pub on_delivery : Externals → DeliveryJob → Io (Unit {0})
on_delivery x job = do deliver x channel_registry job; pure tt

-- `queue.onDispatch((job) => dispatchService.handleDispatch(job))`
unfoldable pub on_dispatch : Externals → DispatchJob → Io (Unit {0})
unfolding on_delivery
on_dispatch x job =
    handle_dispatch x (in_memory_queue x none (some (on_delivery x))) (some Profiles.get) job

unfoldable pub registered_queue : Externals → QueuePort
unfolding on_dispatch on_delivery in_memory_queue
registered_queue x = in_memory_queue x (some (on_dispatch x)) (some (on_delivery x))
