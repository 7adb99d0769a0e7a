-- ===== src/Ports.antt =====
-- src/core/ports.ts: the seams to the outside, and asynchronous code as actions on one state.
-- HTTP, mail, the clock and `randomUUID` are parameters that may answer differently in every state;
-- what the program sends and logs is recorded in order.
pub mod Keeps
use notify_hub.Base.{
  ℕ, suc, Bool, true, false, Option, none, some, List, [], ◌∷◌, ◌++◌, Text, lit, ◌≡◌, refl, ◌⊎◌,
  inl, inr,
}
use notify_hub.Base.Map.{Map}
use notify_hub.Core.{
  Value, undefined, str, obj, Items, nil, cons, Fields, end, field, DispatchJob, DeliveryJob,
  Notification,
}
use notify_hub.Db.{Db}

-- A promise that resolves, or rejects with the message of its error.
pub data Outcome {ℓ} (A : Type ℓ) : Type ℓ where
  ok : A → Outcome A
  raise : Text → Outcome A

pub Outcome-cases :
    {A : Type 0} (o : Outcome A) → ((a : A) × (o ≡ ok a)) ⊎ ((e : Text) × (o ≡ raise e))
Outcome-cases (ok a) = inl (a, refl)
Outcome-cases (raise e) = inr (e, refl)

pub record HttpRequest : Type 0 where
  pub method : Text
  pub url : Option Text
  pub headers : Map Text
  pub body : Value

pub record HttpResponse : Type 0 where
  pub status : ℕ
  pub body : Text

-- What a route sends: `reply.code(status).send(body)`.
pub record HttpReply : Type 0 where
  pub status : ℕ
  pub body : Value

pub record MailMessage : Type 0 where
  pub to : Option Text
  pub subject : Text
  pub text : Text

pub data Level : Type 0 where
  info warn error : Level

pub record LogLine : Type 0 where
  pub level : Level
  pub fields : Fields
  pub msg : Text

pub data Event : Type 0 where
  requested : HttpRequest → Event
  mailed : MailMessage → Event
  logged : LogLine → Event

-- src/queue/in-memory-queue.ts, `DeliveryOutcome`.
pub record DeliveryOutcome : Type 0 where
  pub channel : Text
  pub ok : Bool
  pub error : Option Text

pub record World : Type 0 where
  pub db : Db
  pub events : List Event
  pub deliveries : List DeliveryOutcome
  pub uuids_drawn : ℕ

-- What answers from outside.
pub record Externals : Type 0 where
  pub respond : World → HttpRequest → Outcome HttpResponse
  pub post : World → MailMessage → Outcome (Unit {0})
  pub now : World → ℕ
  pub uuid : ℕ → Text
  -- `JSON.parse`, with `none` for a SyntaxError.
  pub parse_json : Text → Option Value
  -- `new URLSearchParams(…).toString()`
  pub search_params : Map Text → Text
  -- The Unicode classes \p{L} and \p{N}, by code point, and `toLowerCase` and `toUpperCase`.
  pub is_letter_or_number : ℕ → Bool
  pub lower_case : Text → Text
  pub upper_case : Text → Text

abbrev pub Io {ℓ} : Type ℓ → Type ℓ
Io A = World → Outcome A × World

abbrev pub continue {ℓ κ} :
    {A : Type ℓ} {B : Type κ}
    → Outcome A
    → (A → World → Outcome B × World)
    → World
    → Outcome B × World
continue (ok a) f w = f a w
continue (raise e) f w = (raise e, w)

infixl 10 ◌>>=◌ ◌>>◌
abbrev pub ◌>>=◌ : {A B : Type 0} → Io A → (A → Io B) → Io B
◌>>=◌ m f w = let (r, w') = m w in continue r f w'

abbrev pub ◌>>◌ : {A B : Type 0} → Io A → Io B → Io B
m >> n = m >>= λ _. n

abbrev pub pure : {A : Type 0} → A → Io A
pure a w = (ok a, w)

abbrev pub throw : {A : Type 0} → Text → Io A
throw e w = (raise e, w)

-- `try { … } catch (error) { … }`: the handler runs in the state that the failure left.
abbrev handle : {A B : Type 0} → (A → Io B) → (Text → Io B) → Outcome A → Io B
handle f g (ok a) = f a
handle f g (raise e) = g e

abbrev pub try_catch : {A B : Type 0} → Io A → (A → Io B) → (Text → Io B) → Io B
try_catch m f g w = let (r, w') = m w in handle f g r w'

abbrev pub emit : Event → Io (Unit {0})
emit e w = (ok tt, record w { events = w.events ++ e ∷ [] })

abbrev pub log : Level → Fields → Text → Io (Unit {0})
log level fields msg = emit (logged (record { level = level; fields = fields; msg = msg }))

module _ (x : Externals) where
  -- `http.request(opts)`
  abbrev pub request : HttpRequest → Io HttpResponse
  request r w = (x.respond w r, record w { events = w.events ++ requested r ∷ [] })

  -- `mail.send(msg)`
  abbrev pub send_mail : MailMessage → Io (Unit {0})
  send_mail m w = (x.post w m, record w { events = w.events ++ mailed m ∷ [] })

  -- `clock.now()`
  abbrev pub now : Io ℕ
  now w = (ok (x.now w), w)

  abbrev pub random_uuid : Io Text
  random_uuid w = (ok (x.uuid w.uuids_drawn), record w { uuids_drawn = suc w.uuids_drawn })

-- `${value}` where the value may be undefined, and a string property that may be.
abbrev pub template : Option Text → Text
template none = lit "undefined"
template (some s) = s

abbrev pub value_of : Option Text → Value
value_of none = undefined
value_of (some s) = str s

-- An object literal.
abbrev pub object : Map Value → Fields
object [] = end
object ((k, v) ∷ m) = field k v (object m)

-- A JSON body of this status with these members, and one with only an error message.
abbrev pub reply : ℕ → Map Value → HttpReply
reply status members = record { status = status; body = obj (object members) }

abbrev pub error_reply : ℕ → Text → HttpReply
error_reply status message = reply status ((lit "error", str message) ∷ [])

-- `value` as the items of an array.
abbrev pub items : List Value → Items
items [] = nil
items (v ∷ vs) = cons v (items vs)

-- A channel adapter, and the queue as its clients see it.
pub record NotificationChannel : Type 0 where
  pub name : Text
  pub send : Notification → Io (Unit {0})

pub record QueuePort : Type 0 where
  pub enqueue_dispatch : DispatchJob → Io Text
  pub enqueue_delivery : DeliveryJob → Io Text
  pub health : Io Bool
