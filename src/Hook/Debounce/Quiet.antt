-- ===== src/Hook/Debounce/Quiet.antt =====
-- A stop that nothing newer follows, on the session's signals.
use mathlib.Core.Path.{subst}
use notify_hub.Base.{
  Bool, true, false, not, ◌&&◌, ℕ, ◌≤◌, true, false, Option, none, some, List, [], ◌∷◌, ◌++◌, ◌≡◌,
  refl, sym, ap, ◌∙◌, ℤ, pos, All, gt_ℤ, eq_ℤ, eqb, eqb_iff, if◌then◌else◌, arith,
}
use notify_hub.Core.{Value}
use notify_hub.Hook.Debounce.{
  Session, Signal, prompt, stop, wake, wake_up, came_back, signal, signals,
}

abbrev pub IsNotLater : ℕ → Option ℤ → Type 0
IsNotLater now none = Unit
IsNotLater now (some active) = gt_ℤ active (pos now) ≡ false

-- A prompt that is not later than the stop, and a sender of another stop.
abbrev pub IsQuiet : ℕ → Signal → Type 0
IsQuiet now (prompt time) = time ≤ now
IsQuiet now (stop time payload) = ⊥
IsQuiet now (wake stop_ts) = eq_ℤ (pos now) stop_ts ≡ false

record IsWaiting (now : ℕ) (payload : Value) (posted : List Value) (s : Session) : Type 0 where
  pending : s.pending ≡ some (record { stop_ts = pos now; payload = payload })
  posted_before : s.posted ≡ posted
  not_later : IsNotLater now s.activity

wakes-other :
    (back : Bool) (pending stop_ts : ℤ)
    → eq_ℤ pending stop_ts ≡ false
    → (not back && eq_ℤ pending stop_ts) ≡ false
wakes-other true pending stop_ts other = refl
wakes-other false pending stop_ts other = other

wakes-own :
    (active : Option ℤ) (now : ℕ)
    → IsNotLater now active
    → (not (came_back active (pos now)) && eq_ℤ (pos now) (pos now)) ≡ true
unfolding came_back
wakes-own none now h = (eqb_iff now now).1 refl
wakes-own (some active) now h = ap (λ b. not b && eqb now now) h ∙ (eqb_iff now now).1 refl

wake_up-other :
    (now : ℕ) (stop_ts : ℤ) (payload : Value) (s : Session)
    → eq_ℤ (pos now) stop_ts ≡ false
    → wake_up stop_ts (some (record { stop_ts = pos now; payload = payload })) s ≡ s
unfolding wake_up
wake_up-other now stop_ts payload s other =
    ap (λ b. if b then record s { pending = none; posted = s.posted ++ payload ∷ [] } else s)
      (wakes-other (came_back s.activity stop_ts) (pos now) stop_ts other)

wake_up-own :
    (now : ℕ) (payload : Value) (s : Session)
    → IsNotLater now s.activity
    → wake_up (pos now) (some (record { stop_ts = pos now; payload = payload })) s
      ≡ record s { pending = none; posted = s.posted ++ payload ∷ [] }
unfolding wake_up
wake_up-own now payload s not_later =
    ap (λ b. if b then record s { pending = none; posted = s.posted ++ payload ∷ [] } else s)
      (wakes-own s.activity now not_later)

signal-IsWaiting :
    (now : ℕ) (payload : Value) (posted : List Value) (x : Signal) (s : Session)
    → IsQuiet now x
    → IsWaiting now payload posted s
    → IsWaiting now payload posted (signal x s)
unfolding signal
signal-IsWaiting now payload posted (prompt time) s quiet h = record {
  pending = h.pending;
  posted_before = h.posted_before;
  not_later = ground arith;
}
signal-IsWaiting now payload posted (stop time other) s quiet h = elim quiet [ ]
signal-IsWaiting now payload posted (wake stop_ts) s quiet h =
    subst (IsWaiting now payload posted)
      (sym (wake_up-other now stop_ts payload s quiet)
        ∙ ap (λ o. wake_up stop_ts o s) (sym h.pending))
      h

signals-IsWaiting :
    (now : ℕ) (payload : Value) (posted : List Value) (xs : List Signal) (s : Session)
    → All (IsQuiet now) xs
    → IsWaiting now payload posted s
    → IsWaiting now payload posted (signals xs s)
unfolding signals
signals-IsWaiting now payload posted [] s quiet h = h
signals-IsWaiting now payload posted (x ∷ xs) s quiet h =
    signals-IsWaiting now payload posted xs (signal x s) quiet.1
      (signal-IsWaiting now payload posted x s quiet.0 h)

signals-append :
    (xs ys : List Signal) (s : Session) → signals (xs ++ ys) s ≡ signals ys (signals xs s)
unfolding signals
signals-append [] ys s = refl
signals-append (x ∷ xs) ys s = signals-append xs ys (signal x s)

-- The stop, the quiet signals, and the waking of the stop's own sender.
pub signals-quiet :
    (now : ℕ) (payload : Value) (xs : List Signal) (s : Session)
    → IsNotLater now s.activity
    → All (IsQuiet now) xs
    → let after = signals (stop now payload ∷ xs ++ wake (pos now) ∷ []) s in
      (after.posted ≡ s.posted ++ payload ∷ []) × (after.pending ≡ none)
unfolding signals signal
signals-quiet now payload xs s not_later quiet =
    let stopped = signal (stop now payload) s in
    let waiting = signals xs stopped in
    let h =
      signals-IsWaiting now payload s.posted xs stopped quiet
        (record { pending = refl; posted_before = refl; not_later = not_later }) in
    let e =
      signals-append xs (wake (pos now) ∷ []) stopped
      ∙ ap (λ o. wake_up (pos now) o waiting) h.pending
      ∙ wake_up-own now payload waiting h.not_later in
    (ap (λ r. r.posted) e ∙ ap (λ l. l ++ payload ∷ []) h.posted_before, ap (λ r. r.pending) e)
