-- ===== src/Base/Table.antt =====
-- Lists of rows with a text key: the first row that passes a test, insert or replace, remove.
use mathlib.Core.Path.{◌≡◌, sym}
use mathlib.Core.Logic.{◌≢◌, ◌↔◌, ◌⊎◌, inl, inr}
use mathlib.Core.Bool.{Bool, true, false, not}
use mathlib.Core.Option.{Option, none, some}
use mathlib.Core.List.{List, [], ◌∷◌, map}
use native.Mathlib.Omega.{arith}
use notify_hub.Base.Tests.{if◌then◌else◌, Bool-cases}
use notify_hub.Base.Lists.{Mem, Nodup, filter, mem-map, any}
use notify_hub.Base.Strings.{Text, ◌==◌, ==_iff, ==_refl}

-- The first row that passes the test.
unfoldable pub find : {A : Type 0} → (A → Bool) → List A → Option A
find test [] = none
find test (row ∷ rows) = if test row then some row else find test rows

module _ {A : Type 0} where
  pub find_sound :
      (test : A → Bool) (rows : List A) (row : A)
      → find test rows ≡ some row
      → Mem row rows × (test row ≡ true)
  unfolding find
  find_sound test [] row h = cc
  find_sound test (r ∷ rows) row h = elim (Bool-cases (test r)) [
    | inl yes' ↦ let e : r ≡ row = ground arith in (inl (sym e), rw (← e) yes')
    | inr no' ↦ let (m, t) = find_sound test rows row (ground arith) in (inr m, t)
  ]

  pub find-none :
      (test : A → Bool) (rows : List A) (row : A)
      → find test rows ≡ none
      → Mem row rows
      → test row ≡ false
  unfolding find
  find-none test [] row h m = absurd m
  find-none test (r ∷ rows) row h (inl e) = rw e (ground arith)
  find-none test (r ∷ rows) row h (inr m) = find-none test rows row (ground arith) m

  pub any-mem :
      (test : A → Bool) (rows : List A) (row : A)
      → Mem row rows
      → test row ≡ true
      → any test rows ≡ true
  any-mem test [] row m t = absurd m
  any-mem test (r ∷ rows) row (inl e) t = rw (← e) (rw t)
  any-mem test (r ∷ rows) row (inr m) t = ground (arith, any-mem test rows row m t)

  pub any-false :
      (test : A → Bool) (rows : List A) (row : A)
      → any test rows ≡ false
      → Mem row rows
      → test row ≡ false
  any-false test [] row h m = absurd m
  any-false test (r ∷ rows) row h (inl e) = rw e (ground arith)
  any-false test (r ∷ rows) row h (inr m) = any-false test rows row (ground arith) m

module _ {A : Type 0} (key : A → Text) where
  abbrev pub keys : List A → List Text
  keys rows = map key rows

  -- `replace new old` is the row that takes the place of `old`; a key that is not there is appended.
  unfoldable pub upsert_by : (A → A → A) → A → List A → List A
  upsert_by replace new [] = new ∷ []
  upsert_by replace new (row ∷ rows) =
      let rest = upsert_by replace new rows in
      if key row == key new then replace new row ∷ rows else row ∷ rest

  unfoldable pub remove_by : Text → List A → List A
  remove_by id rows = filter (λ row. not (key row == id)) rows

  unfoldable pub find_by : Text → List A → Option A
  unfolding find
  find_by id rows = find (λ row. key row == id) rows

  -- The row that an insertion leaves under its own key.
  unfoldable pub merged : (A → A → A) → A → Option A → A
  merged replace new none = new
  merged replace new (some old) = replace new old

  pub find_by-mem :
      (rows : List A) (row : A)
      → Nodup (keys rows)
      → Mem row rows
      → find_by (key row) rows ≡ some row
  unfolding find_by
  find_by-mem [] row h m = absurd m
  find_by-mem (r ∷ rows) row h (inl e) = rw e (rw (==_refl (key r)))
  find_by-mem (r ∷ rows) row h (inr m) = elim (Bool-cases (key r == key row)) [
    | inl same ↦ absurd (h.0 (rw ((==_iff (key r) (key row)).0 same) (mem-map key row rows m)))
    | inr other ↦ rw other (find_by-mem rows row h.1 m)
  ]

  pub find_by-remove_by :
      (id j : Text) (rows : List A)
      → find_by j (remove_by id rows) ≡ (if id == j then none else find_by j rows)
  unfolding find_by remove_by
  find_by-remove_by id j [] = ground arith
  find_by-remove_by id j (row ∷ rows) =
      ground
        (arith, ==_iff (key row) id, ==_iff (key row) j, ==_iff id j, find_by-remove_by id j rows)

  pub mem-keys-remove_by :
      (id j : Text) (rows : List A)
      → Mem j (keys (remove_by id rows)) ↔ (Mem j (keys rows) × (j ≢ id))
  unfolding remove_by
  mem-keys-remove_by id j [] = ground arith
  mem-keys-remove_by id j (row ∷ rows) =
      ground (arith, ==_iff (key row) id, mem-keys-remove_by id j rows)

  pub Nodup-remove_by :
      (id : Text) (rows : List A) → Nodup (keys rows) → Nodup (keys (remove_by id rows))
  unfolding remove_by
  Nodup-remove_by id [] h = tt
  Nodup-remove_by id (row ∷ rows) h =
      ground (arith, mem-keys-remove_by id (key row) rows, Nodup-remove_by id rows h.1)

  module _ (replace : A → A → A) (new : A)
      (same_key : (old : A) → key (replace new old) ≡ key new) where
    pub find_by-upsert_by :
        (id : Text) (rows : List A)
        → find_by id (upsert_by replace new rows) ≡ (
            if key new == id
            then some (merged replace new (find_by (key new) rows))
            else find_by id rows)
    unfolding find_by upsert_by merged
    find_by-upsert_by id [] = ground arith
    find_by-upsert_by id (row ∷ rows) = ground (
      arith,
      ==_iff (key row) (key new),
      ==_iff (key row) id,
      ==_iff (key new) id,
      same_key row,
      find_by-upsert_by id rows,
    )

    pub mem-keys-upsert_by :
        (j : Text) (rows : List A)
        → Mem j (keys (upsert_by replace new rows)) ↔ (Mem j (keys rows) ⊎ (j ≡ key new))
    unfolding upsert_by
    mem-keys-upsert_by j [] = ground arith
    mem-keys-upsert_by j (row ∷ rows) =
        ground (arith, ==_iff (key row) (key new), same_key row, mem-keys-upsert_by j rows)

    pub Nodup-upsert_by :
        (rows : List A) → Nodup (keys rows) → Nodup (keys (upsert_by replace new rows))
    unfolding upsert_by
    Nodup-upsert_by [] h = ((λ m. m), tt)
    Nodup-upsert_by (row ∷ rows) h = ground (
      arith,
      ==_iff (key row) (key new),
      same_key row,
      mem-keys-upsert_by (key row) rows,
      Nodup-upsert_by rows h.1,
    )
