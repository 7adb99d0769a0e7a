-- ===== src/Admin/WorkerLogs/Failures.antt =====
-- What the parser makes of the line that a failed delivery leaves.
use notify_hub.Base.{◌==◌, Option, Text, lit, ◌≡◌, refl, starts_with, ℤ}
use notify_hub.Core.{str, Fields}
use notify_hub.Delivery.{failed_msg}
use notify_hub.Admin.WorkerLogs.{event_of, event_with, property, skipped}

-- The line that the delivery service logs for a failed delivery, whatever its fields are, is no event
-- for the parser of the worker's log.
pub event_of-failed :
    (iso : ℤ → Option Text) (fields : Fields) (instance' channel : Text)
    → property fields (lit "msg") ≡ str (failed_msg instance')
    → property fields (lit "channel") ≡ str channel
    → event_of iso (Option.some fields) ≡ skipped
unfolding event_of event_with starts_with ◌==◌ lit
event_of-failed iso fields instance' channel msg name = rw (msg, name) refl
