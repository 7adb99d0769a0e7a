-- ===== src/Player/Speech.antt =====
-- `createSpeechQueue` and `speak` of clients/local-tts-player/local-tts-server.mjs. A queued function is
-- an item; `throws` tells which of them throw when they are called. Any other returns a promise, and the
-- queue goes on when it settles.
pub mod Order
use notify_hub.Base.{
  ℕ, zero, suc, ◌<◌, ◌-◌, Bool, true, false, Option, none, some, List, [], ◌∷◌, ◌++◌, Text, lit,
  trim, is_empty, ◌≡◌, if◌then◌else◌,
}
use notify_hub.Base.Map.{Map}
use notify_hub.Core.{Value, undefined, str, obj, Fields, end, field}
use notify_hub.Admin.WorkerLogs.{property}

module _ {A : Type 0} (throws : A → Bool) where
  -- The two variables of the closure, with what has happened outside: the calls that were made, in
  -- order, and the number of promises that have not settled.
  pub record Queue : Type 0 where
    pub pending : List A
    pub running : Bool
    pub started : List A
    pub unsettled : ℕ

  abbrev pub new_queue : Queue
  new_queue = record { pending = []; running = false; started = []; unsettled = 0 }

  -- `runNext`, on what is pending: a call that throws is logged, and the next item has its turn.
  unfoldable pub run_next : List A → List A → ℕ → Queue
  run_next [] started unsettled = record {
    pending = [];
    running = false;
    started = started;
    unsettled = unsettled;
  }
  run_next (item ∷ items) started unsettled =
      let rest = run_next items (started ++ item ∷ []) unsettled in
      if throws item then rest else record {
        pending = items;
        running = true;
        started = started ++ item ∷ [];
        unsettled = suc unsettled;
      }

  unfoldable pub enqueue : A → Queue → Queue
  unfolding run_next
  enqueue item q =
      let pending = q.pending ++ item ∷ [] in
      if q.running then record q { pending = pending } else run_next pending q.started q.unsettled

  -- A promise settles, either way: `Promise.resolve(result).catch(logSpeakFailure).then(runNext)`.
  unfoldable pub settle : Queue → Queue
  unfolding run_next
  settle q = run_next q.pending q.started (q.unsettled - 1)

  -- The queues that a server can have, with the items that were enqueued so far.
  -- A promise settles only if there is one.
  pub data Reach : List A → Queue → Type 0 where
    start : Reach [] new_queue
    request :
        {items : List A} {q : Queue} (item : A)
        → Reach items q
        → Reach (items ++ item ∷ []) (enqueue item q)
    settled :
        {items : List A} {q : Queue} → Reach items q → 0 < q.unsettled → Reach items (settle q)

  -- The promises settle one after the other, `rounds` of them at most.
  unfoldable pub settle_all : ℕ → Queue → Queue
  unfolding settle
  settle_all zero q = q
  settle_all (suc rounds) q =
      let rest = settle_all rounds (settle q) in if q.running then rest else q

-- A body, and the reply with the call of `say` that it enqueues.
pub record Say : Type 0 where
  pub voice : Text
  pub text : Text

pub data SpeakReply : Type 0 where
  text_required : SpeakReply
  speaking : Text → SpeakReply

-- `typeof value === 'string' && value.trim()`
spoken_text : Value → Option Text
unfolding is_empty trim
spoken_text (str s) = if is_empty (trim s) then none else some s
spoken_text _ = none

voice_or : Text → Option Text → Text
voice_or default_voice none = default_voice
voice_or default_voice (some voice) = voice

-- `body?.text`
body_field : Value → Text → Value
unfolding property
body_field (obj fields) key = property fields key
body_field _ key = undefined

speak_text :
    (throws : Say → Bool) → Text → Value → Option Text → Queue throws → SpeakReply × Queue throws
unfolding voice_or spoken_text enqueue
speak_text throws default_voice voice none q = (text_required, q)
speak_text throws default_voice voice (some text) q =
    let chosen = voice_or default_voice (spoken_text voice) in
    (speaking chosen, enqueue throws (record { voice = chosen; text = text }) q)

unfoldable pub speak :
    (throws : Say → Bool) → Text → Value → Queue throws → SpeakReply × Queue throws
unfolding speak_text body_field spoken_text
speak throws default_voice body q =
    speak_text throws default_voice (body_field body (lit "voice"))
      (spoken_text (body_field body (lit "text"))) q
