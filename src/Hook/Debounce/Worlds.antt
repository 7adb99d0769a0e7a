-- ===== src/Hook/Debounce/Worlds.antt =====
-- What each part of a run leaves as it is, and what a session shows of a world.
use notify_hub.Base.{
  ℕ, ltb, leb, ◌||◌, Bool, true, false, Option, none, some, List, [], ◌∷◌, ◌++◌, map, map-append,
  ◌≡◌, ◌≢◌, refl, ap, ◌∙◌, Text, ◌==◌, ==_iff, ℤ, Bool-cases, inl, inr, if◌then◌else◌,
}
use notify_hub.Base.Map.{lookup}
use notify_hub.Core.{Value}
use notify_hub.Ports.{Outcome, ok, raise}
use notify_hub.Hook.{Machine, HookWorld}
use notify_hub.Hook.Caches.{
  Pending, activity_ending, pending_ending, cache_path, number_in, pending_of, parsed_content,
  read_file, write_file, unlink, read_activity_time, read_pending_payload, content_at,
}
use notify_hub.Hook.Run.{spawn_at, report, post_payload, post_to, gateway_request}
use notify_hub.Hook.Debounce.{Session, session_of}

-- A change of the world that leaves the files and the requests alone.
unfoldable pub SameFiles : HookWorld → HookWorld → Type 0
SameFiles w w' = (w'.files ≡ w.files) × (w'.sent ≡ w.sent)

pub spawn_at-SameFiles :
    (m : Machine) (session_id : Text) (time : ℕ) (path : Option Text) (w : HookWorld)
    → SameFiles w (spawn_at m session_id time path w)
unfolding SameFiles spawn_at
spawn_at-SameFiles m session_id time none w = (refl, refl)
spawn_at-SameFiles m session_id time (some path) w = elim (Bool-cases m.can_spawn) [
  | inl can ↦ rw can (refl, refl)
  | inr cannot ↦ rw cannot (refl, refl)
]

pub report-SameFiles : (answer : Outcome ℕ) (w : HookWorld) → SameFiles w (report answer w)
unfolding SameFiles report
report-SameFiles (raise e) w = (refl, refl)
report-SameFiles (ok status) w = elim (Bool-cases (ltb status 200 || leb 300 status)) [
  | inl bad ↦ rw bad (refl, refl)
  | inr fine ↦ rw fine (refl, refl)
]

pub post_to-files :
    (m : Machine) (url token : Option Text) (payload : Value) (w : HookWorld)
    → (post_to m url token payload w).files ≡ w.files
unfolding post_to post_payload SameFiles
post_to-files m none token payload w = refl
post_to-files m (some url) token payload w =
    let request = gateway_request url token payload in
    (report-SameFiles (m.fetch request) (record w { sent = w.sent ++ request ∷ [] })).0

pub post_to-sent :
    (m : Machine) (url : Text) (token : Option Text) (payload : Value) (w : HookWorld)
    → map (λ request. request.body) (post_to m (some url) token payload w).sent
      ≡ map (λ request. request.body) w.sent ++ payload ∷ []
unfolding post_to post_payload SameFiles gateway_request
post_to-sent m url token payload w =
    let request = gateway_request url token payload in
    ap (map (λ request. request.body))
      (report-SameFiles (m.fetch request) (record w { sent = w.sent ++ request ∷ [] })).1
    ∙ map-append (λ request. request.body) w.sent (request ∷ [])

pub read_file-files :
    (m : Machine) (path : Text) (w w' : HookWorld)
    → w'.files ≡ w.files
    → read_file m path w' ≡ read_file m path w
unfolding read_file
read_file-files m path w w' e = ap (λ files. content_at m path (lookup files path)) e

pub ==_false : {s t : Text} → s ≢ t → (s == t) ≡ false
==_false {s} {t} differs = elim (Bool-cases (s == t)) [
  | inl same ↦ absurd (differs ((==_iff s t).0 same))
  | inr other ↦ other
]

pub sent-write_file :
    (m : Machine) (path content : Text) (w : HookWorld)
    → (write_file m path content w).sent ≡ w.sent
unfolding write_file
sent-write_file m path content w = elim (Bool-cases (m.writable path)) [
  | inl can ↦ rw can refl
  | inr cannot ↦ rw cannot refl
]

pub sent-unlink : (m : Machine) (path : Text) (w : HookWorld) → (unlink m path w).sent ≡ w.sent
unfolding unlink
sent-unlink m path w = elim (Bool-cases (m.removable path)) [
  | inl can ↦ rw can refl
  | inr cannot ↦ rw cannot refl
]

module _ (m : Machine) (session_id : Text) where
  pub session_of-eq :
      (w : HookWorld) (activity : Option ℤ) (pending : Option Pending) (posted : List Value)
      → read_activity_time m session_id w ≡ activity
      → read_pending_payload m session_id w ≡ pending
      → map (λ request. request.body) w.sent ≡ posted
      → session_of m session_id w
        ≡ record { activity = activity; pending = pending; posted = posted }
  unfolding session_of
  session_of-eq w activity pending posted a p l =
      let now_activity = read_activity_time m session_id w in
      let now_pending = read_pending_payload m session_id w in
      let now_posted = map (λ request. request.body) w.sent in
      ap (λ o. record { activity = o; pending = now_pending; posted = now_posted }) a
      ∙ ap (λ o. record { activity = activity; pending = o; posted = now_posted }) p
      ∙ ap (λ o. record { activity = activity; pending = pending; posted = o }) l

  pub activity-read :
      (w : HookWorld) (o : Option Text)
      → read_file m (cache_path m session_id activity_ending) w ≡ o
      → read_activity_time m session_id w ≡ number_in m o
  unfolding read_activity_time
  activity-read w o e = ap (number_in m) e

  pub pending-read :
      (w : HookWorld) (o : Option Text)
      → read_file m (cache_path m session_id pending_ending) w ≡ o
      → read_pending_payload m session_id w ≡ pending_of (parsed_content m o)
  unfolding read_pending_payload
  pending-read w o e = ap (λ x. pending_of (parsed_content m x)) e

  pub session_of-if :
      (b : Bool) (sent w : HookWorld) {s : Session}
      → session_of m session_id sent ≡ s
      → session_of m session_id (if b then sent else w)
        ≡ (if b then s else session_of m session_id w)
  session_of-if true sent w e = e
  session_of-if false sent w e = refl
