-- ===== src/Hook/Debounce/Order.antt =====
-- What a debounced session posts, and in which order.
use mathlib.Core.Path.{subst}
use notify_hub.Base.{
  Option, none, some, List, [], ◌∷◌, ◌++◌, append_assoc, append-nil, ◌≡◌, refl, ℤ, Sublist, nil,
  skip, keep, Sublist-nil, Bool-cases, inl, inr,
}
use notify_hub.Base.{not, ◌&&◌, eq_ℤ}
use notify_hub.Core.{Value}
use notify_hub.Hook.Caches.{Pending}
use notify_hub.Hook.Debounce.{
  Session, Signal, prompt, stop, wake, wake_up, came_back, signal, signals,
}

abbrev pub payload_of : Option Pending → List Value
payload_of none = []
payload_of (some pending) = pending.payload ∷ []

-- The payloads of the stops.
abbrev pub stop_payloads : List Signal → List Value
stop_payloads [] = []
stop_payloads (stop time payload ∷ xs) = payload ∷ stop_payloads xs
stop_payloads (prompt time ∷ xs) = stop_payloads xs
stop_payloads (wake time ∷ xs) = stop_payloads xs

-- What may be posted, in this order: what was, what is pending, and what is to come.
unfoldable pub possible : Session → List Value → List Value
possible s later = s.posted ++ (payload_of s.pending ++ later)

module _ {A : Type 0} where
  Sublist-refl : (xs : List A) → Sublist xs xs
  Sublist-refl [] = nil
  Sublist-refl (x ∷ xs) = keep (Sublist-refl xs)

  Sublist-trans : {ys zs : List A} → Sublist ys zs → {xs : List A} → Sublist xs ys → Sublist xs zs
  Sublist-trans nil s = s
  Sublist-trans (skip t) s = skip (Sublist-trans t s)
  Sublist-trans (keep t) (skip s) = skip (Sublist-trans t s)
  Sublist-trans (keep t) (keep s) = keep (Sublist-trans t s)

  Sublist-append : (xs : List A) {ys zs : List A} → Sublist ys zs → Sublist (xs ++ ys) (xs ++ zs)
  Sublist-append [] s = s
  Sublist-append (x ∷ xs) s = keep (Sublist-append xs s)

  skip_all : (xs ys : List A) → Sublist ys (xs ++ ys)
  skip_all [] ys = Sublist-refl ys
  skip_all (x ∷ xs) ys = skip (skip_all xs ys)

wake_up-possible :
    (stop_ts : ℤ) (pending : Option Pending) (s : Session) (later : List Value)
    → s.pending ≡ pending
    → possible (wake_up stop_ts pending s) later ≡ possible s later
unfolding wake_up possible
wake_up-possible stop_ts none s later e = refl
wake_up-possible stop_ts (some pending) s later e =
    elim (Bool-cases (not (came_back s.activity stop_ts) && eq_ℤ pending.stop_ts stop_ts)) [
      | inl sends ↦ rw (sends, e) (append_assoc s.posted (pending.payload ∷ []) later)
      | inr keeps ↦ rw keeps refl
    ]

pub signals-possible :
    (xs : List Signal) (s : Session) → Sublist (signals xs s).posted (possible s (stop_payloads xs))
unfolding signals signal possible
signals-possible [] s =
    subst (λ l. Sublist l (s.posted ++ (payload_of s.pending ++ []))) (append-nil s.posted)
      (Sublist-append s.posted (Sublist-nil (payload_of s.pending ++ [])))
signals-possible (prompt time ∷ xs) s = signals-possible xs (signal (prompt time) s)
signals-possible (stop time payload ∷ xs) s =
    Sublist-trans
      (Sublist-append s.posted (skip_all (payload_of s.pending) (payload ∷ stop_payloads xs)))
      (signals-possible xs (signal (stop time payload) s))
signals-possible (wake stop_ts ∷ xs) s =
    subst (λ l. Sublist (signals xs (signal (wake stop_ts) s)).posted l)
      (wake_up-possible stop_ts s.pending s (stop_payloads xs) refl)
      (signals-possible xs (signal (wake stop_ts) s))
