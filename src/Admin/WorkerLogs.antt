-- ===== src/Admin/WorkerLogs.antt =====
-- src/admin/worker-log-parser.ts. `toISOString` is a parameter, which is `none` on a time that it
-- throws a RangeError for.
pub mod Failures
use notify_hub.Base.{
  ℕ, ◌-◌, Bool, true, false, Option, none, some, List, [], ◌∷◌, ◌++◌, drop, length, Text, lit, ◌==◌,
  eqb, starts_with, split, ℤ, if◌then◌else◌,
}
use notify_hub.Core.{Value, num, str, obj, undefined, Fields, end, field}
use notify_hub.Ports.{Externals}

pub record WorkerDeliveryEvent : Type 0 where
  pub channel : Text
  pub ok : Bool
  pub error : Option Text
  pub time : Option Text

-- `obj[key]`
unfoldable pub property : Fields → Text → Value
property end key = undefined
property (field k v fields) key = if k == key then v else property fields key

-- `line.slice(line.indexOf('{'))`
from_brace : Text → Option Text
from_brace [] = none
from_brace (c ∷ s) = let later = from_brace s in if eqb c b'{' then some (c ∷ s) else later

parsed_object : Option Value → Option Fields
parsed_object (some (obj fields)) = some fields
parsed_object _ = none

-- An array passes the test on its type, but has no `msg`, so that its line is skipped as others are.
unfoldable pub extract_json_object : Externals → Text → Option Fields
unfolding from_brace parsed_object
extract_json_object x line = elim (from_brace line) [
  | none ↦ none
  | some json ↦ parsed_object (x.parse_json json)
]

string_value : Value → Option Text
string_value (str s) = some s
string_value _ = none

-- No time, a time, or the throw of `toISOString`.
pub data IsoTime : Type 0 where
  absent : IsoTime
  at : Text → IsoTime
  out_of_range : IsoTime

spelled : Option Text → IsoTime
spelled none = out_of_range
spelled (some t) = at t

to_iso_time : (ℤ → Option Text) → Value → IsoTime
unfolding spelled
to_iso_time iso (num n) = spelled (iso n)
to_iso_time iso _ = absent

-- The event of one line: none, one, or a throw.
pub data LineEvent : Type 0 where
  skipped : LineEvent
  event : WorkerDeliveryEvent → LineEvent
  throws : LineEvent

with_time : Text → Bool → Option Text → IsoTime → LineEvent
with_time channel ok error absent =
    event (record { channel = channel; ok = ok; error = error; time = none })
with_time channel ok error (at t) =
    event (record { channel = channel; ok = ok; error = error; time = some t })
with_time channel ok error out_of_range = throws

event_with : (ℤ → Option Text) → Fields → Value → Value → LineEvent
unfolding with_time to_iso_time string_value property starts_with
event_with iso fields (str msg) (str channel) =
    let time = to_iso_time iso (property fields (lit "time")) in
    if msg == lit "notification sent"
    then with_time channel true none time
    else if starts_with msg (lit "delivery failed for channel")
    then with_time channel false (string_value (property fields (lit "error"))) time
    else skipped
event_with iso fields _ _ = skipped

unfoldable pub event_of : (ℤ → Option Text) → Option Fields → LineEvent
unfolding event_with property
event_of iso none = skipped
event_of iso (some fields) =
    event_with iso fields (property fields (lit "msg")) (property fields (lit "channel"))

-- The loop over the lines; `none` is a throw.
unfoldable pub collect :
    Externals
    → (ℤ → Option Text)
    → List Text
    → List WorkerDeliveryEvent
    → Option (List WorkerDeliveryEvent)
unfolding event_of extract_json_object
collect x iso [] events = some events
collect x iso (line ∷ lines) events = elim (event_of iso (extract_json_object x line)) [
  | skipped ↦ collect x iso lines events
  | event e ↦ collect x iso lines (events ++ e ∷ [])
  | throws ↦ none
]

-- `events.slice(-20)`
abbrev pub last_twenty : List WorkerDeliveryEvent → List WorkerDeliveryEvent
last_twenty events = drop (length events - 20) events

unfoldable pub parse_worker_delivery_logs :
    Externals → (ℤ → Option Text) → Text → Option (List WorkerDeliveryEvent)
unfolding collect split
parse_worker_delivery_logs x iso raw = elim (collect x iso (split raw (lit "\n")) []) [
  | none ↦ none
  | some events ↦ some (last_twenty events)
]
