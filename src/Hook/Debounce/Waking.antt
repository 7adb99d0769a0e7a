-- ===== src/Hook/Debounce/Waking.antt =====
-- What the session shows after a sender that wakes.
use notify_hub.Base.{
  Bool-cases, inl, inr, true, not, ◌&&◌, eq_ℤ, gt_ℤ, Option, none, some, [], ◌∷◌, ◌++◌, map, ◌≡◌,
  ◌≢◌, refl, sym, ap, ◌∙◌, Text, lit, ℤ, if◌then◌else◌,
}
use notify_hub.Hook.{Machine, HookWorld, truthy}
use notify_hub.Hook.Caches.{
  Pending, activity_ending, pending_ending, cache_path, pending_of, parsed_content, read_file,
  unlink, read_activity_time, delete_pending_payload,
}
use notify_hub.Hook.Caches.Reading.{read_file-unlink, read_file-unlink_other}
use notify_hub.Hook.Run.{post_to, deferred_post, should_deferred_send, send_pending}
use notify_hub.Hook.Debounce.{wake_up, came_back, session_of}
use notify_hub.Hook.Debounce.Worlds.{
  post_to-files, post_to-sent, read_file-files, ==_false, sent-unlink, session_of-eq, activity-read,
  pending-read, session_of-if,
}

module _ (m : Machine) (session_id : Text) (removable : (path : Text) → m.removable path ≡ true)
    (activity_pending : cache_path m session_id activity_ending
      ≢ cache_path m session_id pending_ending) where
  abbrev activity_path : Text
  activity_path = cache_path m session_id activity_ending

  abbrev pending_path : Text
  pending_path = cache_path m session_id pending_ending

  session_of-post :
      (config : Text → Option Text) (url : Text) (pending : Pending) (w : HookWorld)
      → truthy (config (lit "NOTIFY_URL")) ≡ some url
      → session_of m session_id
          (delete_pending_payload m session_id (deferred_post m config w pending))
        ≡ record (session_of m session_id w) {
          pending = none;
          posted = (session_of m session_id w).posted ++ pending.payload ∷ [];
        }
  unfolding session_of read_activity_time delete_pending_payload deferred_post pending_of
      parsed_content
  session_of-post config url pending w reachable =
      let token = config (lit "NOTIFY_TOKEN") in
      let w1 = post_to m (some url) token pending.payload w in
      let w2 = unlink m pending_path w1 in
      ap
        (λ o. session_of m session_id (unlink m pending_path (post_to m o token pending.payload w)))
        reachable
      ∙ session_of-eq m session_id w2 (read_activity_time m session_id w) none
          (map (λ request. request.body) w.sent ++ pending.payload ∷ [])
          (activity-read m session_id w2 (read_file m activity_path w) (
            read_file-unlink_other m pending_path w1 activity_path (removable pending_path)
              (==_false (λ e. activity_pending (sym e)))
            ∙ read_file-files m activity_path w w1
                (post_to-files m (some url) token pending.payload w)))
          (pending-read m session_id w2 none
            (read_file-unlink m pending_path w1 (removable pending_path)))
          (ap (map (λ request. request.body)) (sent-unlink m pending_path w1)
            ∙ post_to-sent m url token pending.payload w)

  -- The decision of the code is that of the abstract session.
  should_deferred_send-eq :
      (active : Option ℤ) (pending mine : ℤ)
      → should_deferred_send active (some pending) mine
        ≡ not (came_back active mine) && eq_ℤ pending mine
  unfolding should_deferred_send came_back
  should_deferred_send-eq none pending mine = refl
  should_deferred_send-eq (some active) pending mine = elim (Bool-cases (gt_ℤ active mine)) [
    | inl later ↦ rw later refl
    | inr earlier ↦ rw earlier refl
  ]

  pub session_of-send_pending :
      (config : Text → Option Text) (url : Text) (stop_ts : ℤ) (o : Option Pending) (w : HookWorld)
      → truthy (config (lit "NOTIFY_URL")) ≡ some url
      → session_of m session_id
          (send_pending m config session_id (read_activity_time m session_id w) stop_ts o w)
        ≡ wake_up stop_ts o (session_of m session_id w)
  unfolding send_pending wake_up session_of
  session_of-send_pending config url stop_ts none w reachable = refl
  session_of-send_pending config url stop_ts (some pending) w reachable =
      let active = read_activity_time m session_id w in
      let posted = delete_pending_payload m session_id (deferred_post m config w pending) in
      ap (λ b. session_of m session_id (if b then posted else w))
        (should_deferred_send-eq active pending.stop_ts stop_ts)
      ∙ session_of-if m session_id (not (came_back active stop_ts) && eq_ℤ pending.stop_ts stop_ts)
          posted w (session_of-post config url pending w reachable)
