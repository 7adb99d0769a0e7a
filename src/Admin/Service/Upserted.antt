-- ===== src/Admin/Service/Upserted.antt =====
-- The list that `upsertedById` gives, and the channel list after the row is written.
use mathlib.Core.Path.{subst}
use notify_hub.Base.{
  Bool, List, [], ◌∷◌, map, Text, ◌==◌, ==_iff, ◌≡◌, ◌≢◌, refl, sym, ap, ◌∙◌, ◌⊎◌, inl, inr, Mem,
  Nodup, exists_of_mem-map, mem-map, arith, Bool-cases,
}
use notify_hub.Base.Sort.{sort, mem-sort, Nodup-sort}
use notify_hub.Admin.Service.{upserted_by_id}

module _ {A : Type 0} where
  pub mem-upserted_by_id_self :
      (id : A → Text) (list : List A) (item : A) → Mem item (upserted_by_id id list item)
  unfolding upserted_by_id
  mem-upserted_by_id_self id [] item = inl refl
  mem-upserted_by_id_self id (entry ∷ list) item =
      ground (arith, mem-upserted_by_id_self id list item)

  pub mem-upserted_by_id_other :
      (id : A → Text) (list : List A) (item x : A)
      → Mem x list
      → id x ≢ id item
      → Mem x (upserted_by_id id list item)
  unfolding upserted_by_id
  mem-upserted_by_id_other id [] item x m ne = absurd m
  mem-upserted_by_id_other id (entry ∷ list) item x (inl e) ne =
      elim (Bool-cases (id entry == id item)) [
        | inl same ↦ absurd (ne (ap id e ∙ (==_iff (id entry) (id item)).0 same))
        | inr other ↦ rw other (inl e)
      ]
  mem-upserted_by_id_other id (entry ∷ list) item x (inr m) ne =
      elim (Bool-cases (id entry == id item)) [
        | inl same ↦ rw same (inr m)
        | inr other ↦ rw other (inr (mem-upserted_by_id_other id list item x m ne))
      ]

  pub mem-upserted_by_id :
      (id : A → Text) (list : List A) (item x : A)
      → Nodup (map id list)
      → Mem x (upserted_by_id id list item)
      → (x ≡ item) ⊎ (Mem x list × (id x ≢ id item))
  unfolding upserted_by_id
  mem-upserted_by_id id [] item x h m = ground arith
  mem-upserted_by_id id (entry ∷ list) item x h m = elim (Bool-cases (id entry == id item)) [
    | inl same ↦ elim (rw same at m) [
      | inl e ↦ inl e
      | inr there ↦ inr (
        inr there,
        λ e. h.0 (
            subst (λ j. Mem j (map id list)) (e ∙ sym ((==_iff (id entry) (id item)).0 same))
              (mem-map id x list there)),
      )
    ]
    | inr other ↦ elim (rw other at m) [
      | inl e ↦ inr (inl e, λ k. ground (arith, ap id e, ==_iff (id entry) (id item)))
      | inr there ↦ elim (mem-upserted_by_id id list item x h.1 there) [
        | inl e ↦ inl e
        | inr (old, ne) ↦ inr (inr old, ne)
      ]
    ]
  ]

  pub Nodup-map-injective :
      (f : A → Text) (xs : List A) (a b : A)
      → Nodup (map f xs)
      → Mem a xs
      → Mem b xs
      → f a ≡ f b
      → a ≡ b
  Nodup-map-injective f [] a b h m n e = absurd m
  Nodup-map-injective f (x ∷ xs) a b h (inl p) (inl q) e = p ∙ sym q
  Nodup-map-injective f (x ∷ xs) a b h (inl p) (inr n) e =
      absurd (h.0 (subst (λ t. Mem t (map f xs)) (sym e ∙ ap f p) (mem-map f b xs n)))
  Nodup-map-injective f (x ∷ xs) a b h (inr m) (inl q) e =
      absurd (h.0 (subst (λ t. Mem t (map f xs)) (e ∙ ap f q) (mem-map f a xs m)))
  Nodup-map-injective f (x ∷ xs) a b h (inr m) (inr n) e = Nodup-map-injective f xs a b h.1 m n e

  pub Nodup-of_map : (f : A → Text) (xs : List A) → Nodup (map f xs) → Nodup xs
  Nodup-of_map f [] h = tt
  Nodup-of_map f (x ∷ xs) h = ((λ m. h.0 (mem-map f x xs m)), Nodup-of_map f xs h.1)

  -- Sorting keeps the values of `f` apart.
  pub Nodup-map-of_injective :
      (f : A → Text) (xs : List A)
      → Nodup xs
      → ((a b : A) → Mem a xs → Mem b xs → f a ≡ f b → a ≡ b)
      → Nodup (map f xs)
  Nodup-map-of_injective f [] h inj = tt
  Nodup-map-of_injective f (x ∷ xs) h inj = (
    λ m.
        let (y, there, e) = exists_of_mem-map f (f x) xs m in
        h.0 (subst (λ z. Mem z xs) (inj y x (inr there) (inl refl) e) there),
    Nodup-map-of_injective f xs h.1 (λ a b m n e. inj a b (inr m) (inr n) e),
  )

  pub Nodup-map-sort :
      (f : A → Text) (le : A → A → Bool) (xs : List A)
      → Nodup (map f xs)
      → Nodup (map f (sort le xs))
  Nodup-map-sort f le xs h =
      Nodup-map-of_injective f (sort le xs) (Nodup-sort le xs (Nodup-of_map f xs h)) (λ a b m n e.
        Nodup-map-injective f xs a b h ((mem-sort le a xs).0 m) ((mem-sort le b xs).0 n) e)
