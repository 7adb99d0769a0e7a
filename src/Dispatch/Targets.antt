-- ===== src/Dispatch/Targets.antt =====
-- The targets of a job, in terms of the two repositories.
use mathlib.Core.Path.{subst}
use mathlib.Core.Option.{some-injective}
use notify_hub.Base.{
  ◌∙◌, true, Option, none, some, List, map, Text, ◌≡◌, refl, sym, ◌↔◌, Mem, Nodup, mem-map,
  exists_of_mem-map,
}
use notify_hub.Core.{ProfileRecord, DispatchJob, ChannelInstance}
use notify_hub.Db.{Db}
use notify_hub.Db.Channels
use notify_hub.Db.Channels.Laws.{mem-list_enabled, get-id}
use notify_hub.Db.Profiles
use notify_hub.Db.Integrity.{IsConsistent}
use notify_hub.Dispatch.{targets, source_of, default_channels_of, unless_requested}
use notify_hub.Dispatch.Resolve.{mem-resolve_channels, resolve_channels-sublist}

-- An id that the job asks for: one of the requested ids, or with none requested, a default channel
-- of the job's profile.
abbrev pub IsAskedFor : Db → DispatchJob → Option (List Text) → Text → Type 0
IsAskedFor db job (some requested) id = Mem id requested
IsAskedFor db job none id =
    (p : ProfileRecord) × (Profiles.get db job.profile_id ≡ some p) × Mem id p.default_channels

IsAskedFor-iff :
    (db : Db) (job : DispatchJob) (requested : Option (List Text)) (id : Text)
    → Mem id (
        source_of
          (unless_requested requested (default_channels_of (some Profiles.get) db job.profile_id))
          requested)
      ↔ IsAskedFor db job requested id
unfolding unless_requested default_channels_of
IsAskedFor-iff db job (some requested) id = ((λ m. m), (λ m. m))
IsAskedFor-iff db job none id = over (Profiles.get db job.profile_id) refl
  where
    over :
        (o : Option ProfileRecord)
        → Profiles.get db job.profile_id ≡ o
        → Mem id (default_channels_of (some (λ _ _. o)) db job.profile_id) ↔ (
            (p : ProfileRecord) × (Profiles.get db job.profile_id ≡ some p)
            × Mem id p.default_channels)
    over none e = ((λ m. absurd m), (λ (p, f, m). absurd (cc (e, f))))
    over (some q) e = ((λ m. (q, e, m)), (λ (p, f, m). rw (some-injective q p (sym e ∙ f)) m))

enabled_iff :
    (db : Db) (id : Text)
    → IsConsistent db
    → Mem id (map (λ c. c.id) (Channels.list_enabled db))
      ↔ ((c : ChannelInstance) × (Channels.get db id ≡ some c) × (c.enabled ≡ true))
enabled_iff db id h = (
  λ m.
      let (c, there, e) = exists_of_mem-map (λ (c : ChannelInstance). c.id) id _ m in
      let (found, on) = (mem-list_enabled db c h.channel_ids).0 there in
      (c, subst (λ j. Channels.get db j ≡ some c) e found, on),
  λ (c, found, on).
      let same = get-id db id c found in
      let own = subst (λ j. Channels.get db j ≡ some c) (sym same) found in
      subst (λ j. Mem j (map (λ (d : ChannelInstance). d.id) (Channels.list_enabled db))) same
        (mem-map (λ (d : ChannelInstance). d.id) c _
          ((mem-list_enabled db c h.channel_ids).1 (own, on))),
)

-- A dispatched job goes to an id exactly when the job asks for it and an enabled instance has it, at
-- dispatch time; and to each id once.
pub targets_iff :
    (db : Db) (job : DispatchJob) (id : Text)
    → IsConsistent db
    → (Mem id (targets (some Profiles.get) db job) ↔ (
        IsAskedFor db job job.requested_channels id
        × ((c : ChannelInstance) × (Channels.get db id ≡ some c) × (c.enabled ≡ true))))
      × Nodup (targets (some Profiles.get) db job)
unfolding targets
targets_iff db job id h =
    let defaults =
      unless_requested job.requested_channels
        (default_channels_of (some Profiles.get) db job.profile_id) in
    let enabled = map (λ (c : ChannelInstance). c.id) (Channels.list_enabled db) in
    let resolved = mem-resolve_channels defaults job.requested_channels enabled id in
    let asked = IsAskedFor-iff db job job.requested_channels id in
    let on = enabled_iff db id h in
    (
      (
        λ m. let (a, b) = resolved.0 m in (asked.0 a, on.0 b),
        λ (a, b). resolved.1 (asked.1 a, on.1 b),
      ),
      (resolve_channels-sublist defaults job.requested_channels enabled).1,
    )
