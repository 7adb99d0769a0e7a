-- ===== src/Player/Speech/Order.antt =====
-- The order and the exclusion of the calls of `say`.
use mathlib.Core.Path.{subst}
use notify_hub.Base.{
  ℕ, zero, suc, ◌-◌, ◌<◌, Bool, true, false, List, [], ◌∷◌, ◌++◌, append_assoc, append-nil, length,
  ◌≡◌, refl, sym, ap, ◌∙◌, arith, Bool-cases, inl, inr, ◌⊎◌, if◌then◌else◌,
}
use notify_hub.Player.Speech.{
  Queue, run_next, enqueue, settle, Reach, start, request, settled, settle_all,
}

module _ {A : Type 0} (throws : A → Bool) where
  abbrev one_if : Bool → ℕ
  one_if running = if running then 1 else 0

  -- Every item has been called or waits, in the order of the requests; while a promise is out there is
  -- one, and otherwise nothing waits.
  pub record IsOrderly (items : List A) (q : Queue throws) : Type 0 where
    pub order : q.started ++ q.pending ≡ items
    pub alone : q.unsettled ≡ one_if q.running
    pub idle : (q.running ≡ true) ⊎ (q.pending ≡ [])

  run_next-IsOrderly :
      (pending started : List A)
      → IsOrderly (started ++ pending) (run_next throws pending started 0)
  unfolding run_next
  run_next-IsOrderly [] started = record { order = refl; alone = refl; idle = inr refl }
  run_next-IsOrderly (item ∷ items) started = elim (Bool-cases (throws item)) [
    | inl t ↦
        let rest = run_next-IsOrderly items (started ++ item ∷ []) in
        rw t (record {
          order = rest.order ∙ append_assoc started (item ∷ []) items;
          alone = rest.alone;
          idle = rest.idle;
        })
    | inr f ↦
        rw f
          (record { order = append_assoc started (item ∷ []) items; alone = refl; idle = inl refl })
  ]

  run_next_at :
      (pending started items : List A) (unsettled : ℕ)
      → started ++ pending ≡ items
      → unsettled ≡ 0
      → IsOrderly items (run_next throws pending started unsettled)
  run_next_at pending started items unsettled order none_out =
      rw (none_out, sym order) (run_next-IsOrderly pending started)

  enqueue-IsOrderly :
      (items : List A) (item : A) (q : Queue throws)
      → IsOrderly items q
      → IsOrderly (items ++ item ∷ []) (enqueue throws item q)
  unfolding enqueue
  enqueue-IsOrderly items item q h =
      let longer =
        sym (append_assoc q.started q.pending (item ∷ [])) ∙ ap (λ l. l ++ item ∷ []) h.order in
      elim (Bool-cases q.running) [
        | inl on ↦ rw on (record { order = longer; alone = rw on at h.alone; idle = inl refl })
        | inr off ↦ rw off (
            run_next_at (q.pending ++ item ∷ []) q.started (items ++ item ∷ []) q.unsettled longer
              (rw off at h.alone))
      ]

  settle-IsOrderly :
      (items : List A) (q : Queue throws)
      → IsOrderly items q
      → 0 < q.unsettled
      → IsOrderly items (settle throws q)
  unfolding settle
  settle-IsOrderly items q h some_out =
      run_next_at q.pending q.started items (q.unsettled - 1) h.order (ground (arith, h.alone))

  -- In every queue that a server can have: the items in the order of their requests are those that
  -- were called and then those that wait, at most one call is in flight, and when none is, none waits.
  pub Reach-IsOrderly :
      (items : List A) (q : Queue throws) → Reach throws items q → IsOrderly items q
  Reach-IsOrderly items q start = record { order = refl; alone = refl; idle = inr refl }
  Reach-IsOrderly items q (request item r) = enqueue-IsOrderly _ item _ (Reach-IsOrderly _ _ r)
  Reach-IsOrderly items q (settled r h) = settle-IsOrderly _ _ (Reach-IsOrderly _ _ r) h

  length-run_next :
      (pending started : List A) (unsettled : ℕ)
      → ((run_next throws pending started unsettled).running ≡ false)
        ⊎ (length (run_next throws pending started unsettled).pending < length pending)
  unfolding run_next
  length-run_next [] started unsettled = inl refl
  length-run_next (item ∷ items) started unsettled = elim (Bool-cases (throws item)) [
    | inl t ↦ rw t (ground (arith, length-run_next items (started ++ item ∷ []) unsettled))
    | inr f ↦ rw f (inr (omega arith))
  ]

  settle_all-stop :
      (rounds : ℕ) (q : Queue throws) → q.running ≡ false → settle_all throws rounds q ≡ q
  unfolding settle_all
  settle_all-stop zero q off = refl
  settle_all-stop (suc rounds) q off =
      ap (λ b. if b then settle_all throws rounds (settle throws q) else q) off

  settle_all-next :
      (rounds : ℕ) (q : Queue throws)
      → q.running ≡ true
      → settle_all throws (suc rounds) q ≡ settle_all throws rounds (settle throws q)
  unfolding settle_all
  settle_all-next rounds q on =
      ap (λ b. if b then settle_all throws rounds (settle throws q) else q) on

  settle_all-idle :
      (rounds : ℕ) (items : List A) (q : Queue throws)
      → IsOrderly items q
      → length q.pending < rounds
      → ((settle_all throws rounds q).running ≡ false)
        × IsOrderly items (settle_all throws rounds q)
  settle_all-idle zero items q h k = absurd (omega arith)
  settle_all-idle (suc rounds) items q h k = elim (Bool-cases q.running) [
    | inr off ↦
        subst (λ r. (r.running ≡ false) × IsOrderly items r)
          (sym (settle_all-stop (suc rounds) q off)) (off, h)
    | inl on ↦
        let kept = settle-IsOrderly items q h (ground (arith, h.alone)) in
        subst (λ r. (r.running ≡ false) × IsOrderly items r) (sym (settle_all-next rounds q on))
          (elim (length-run_next q.pending q.started (q.unsettled - 1)) [
            | inl off ↦
                subst (λ r. (r.running ≡ false) × IsOrderly items r)
                  (sym (settle_all-stop rounds (settle throws q) (unfold settle in off)))
                  (unfold settle in off, kept)
            | inr fewer ↦
                settle_all-idle rounds items (settle throws q) kept
                  (unfold settle in omega (arith, fewer))
          ])
  ]

  -- Whatever a server was asked to say, in any order and with any failures, once the promises have
  -- settled, one more of them than items that wait, it is idle and every item was called in order.
  pub settle_all_lem :
      (items : List A) (q : Queue throws)
      → Reach throws items q
      → let r = settle_all throws (suc (length q.pending)) q in
        (r.running ≡ false) × (r.unsettled ≡ 0) × (r.started ≡ items)
  settle_all_lem items q reached =
      let (off, h) =
        settle_all-idle (suc (length q.pending)) items q (Reach-IsOrderly items q reached)
          (omega arith) in
      (
        off,
        h.alone ∙ ap one_if off,
        elim h.idle [
          | inl on ↦ absurd (cc (on, off))
          | inr empty ↦
              sym (append-nil _)
              ∙ ap (λ l. (settle_all throws (suc (length q.pending)) q).started ++ l) (sym empty)
              ∙ h.order
        ],
      )
