-- ===== src/Dispatch/Resolve.antt =====
-- What `resolveChannels` and the targets of a job are.
use notify_hub.Base.{
  true, false, ◌&&◌, not, Option, List, [], ◌∷◌, ◌++◌, Text, ==_iff, has, has_iff, ◌≡◌, sym, ◌∙◌,
  ◌↔◌, inl, inr, Mem, Nodup, Sublist, nil, skip, keep, append_assoc, append-nil, if◌then◌else◌,
  arith, Bool-cases,
}
use notify_hub.Dispatch.{resolve_loop, source_of, resolve_channels}

-- The loop without its accumulated array.
fresh : List Text → List Text → List Text → List Text
fresh enabled [] seen = []
fresh enabled (c ∷ source) seen =
    let rest =
      fresh enabled source (if has enabled c && not (has seen c) then c ∷ seen else seen) in
    if has enabled c && not (has seen c) then c ∷ rest else rest

resolve_loop-eq-fresh :
    (enabled source seen resolved : List Text)
    → resolve_loop enabled source seen resolved ≡ resolved ++ fresh enabled source seen
unfolding resolve_loop fresh
resolve_loop-eq-fresh enabled [] seen resolved = sym (append-nil resolved)
resolve_loop-eq-fresh enabled (c ∷ source) seen resolved =
    elim (Bool-cases (has enabled c && not (has seen c))) [
      | inl h ↦ rw h (
          resolve_loop-eq-fresh enabled source (c ∷ seen) (resolved ++ c ∷ [])
          ∙ append_assoc resolved (c ∷ []) _)
      | inr h ↦ rw h (resolve_loop-eq-fresh enabled source seen resolved)
    ]

fresh-sublist : (enabled source seen : List Text) → Sublist (fresh enabled source seen) source
unfolding fresh
fresh-sublist enabled [] seen = nil
fresh-sublist enabled (c ∷ source) seen = elim (Bool-cases (has enabled c && not (has seen c))) [
  | inl h ↦ rw h (keep (fresh-sublist enabled source (c ∷ seen)))
  | inr h ↦ rw h (skip (fresh-sublist enabled source seen))
]

mem-fresh :
    (enabled source seen : List Text) (x : Text)
    → Mem x (fresh enabled source seen)
      ↔ (Mem x source × (has enabled x ≡ true) × (has seen x ≡ false))
unfolding fresh has
mem-fresh enabled [] seen x = ground arith
mem-fresh enabled (c ∷ source) seen x =
    ground
      (arith, ==_iff x c, mem-fresh enabled source seen x, mem-fresh enabled source (c ∷ seen) x)

Nodup-fresh : (enabled source seen : List Text) → Nodup (fresh enabled source seen)
unfolding fresh has
Nodup-fresh enabled [] seen = tt
Nodup-fresh enabled (c ∷ source) seen = ground (
  arith,
  ==_iff c c,
  mem-fresh enabled source (c ∷ seen) c,
  Nodup-fresh enabled source seen,
  Nodup-fresh enabled source (c ∷ seen),
)

module _ (default_channels : List Text) (requested : Option (List Text)) (enabled : List Text) where
  resolve_channels-eq-fresh :
      resolve_channels default_channels requested enabled
      ≡ fresh enabled (source_of default_channels requested) []
  unfolding resolve_channels
  resolve_channels-eq-fresh = resolve_loop-eq-fresh enabled _ [] []

  -- The resolved ids are some of the source's (the requested ids, or the default channels when none
  -- were requested) in the source's order, without repetition.
  pub resolve_channels-sublist :
      Sublist
        (resolve_channels default_channels requested enabled)
        (source_of default_channels requested)
      × Nodup (resolve_channels default_channels requested enabled)
  resolve_channels-sublist =
      rw resolve_channels-eq-fresh (fresh-sublist enabled _ [], Nodup-fresh enabled _ [])

  -- An id is resolved exactly when the source names it and it is enabled.
  pub mem-resolve_channels :
      (id : Text)
      → Mem id (resolve_channels default_channels requested enabled)
        ↔ (Mem id (source_of default_channels requested) × Mem id enabled)
  unfolding has
  mem-resolve_channels id = rw resolve_channels-eq-fresh (
      ground
        (arith, mem-fresh enabled (source_of default_channels requested) [] id, has_iff enabled id))
