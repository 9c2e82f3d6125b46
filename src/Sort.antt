-- ===== src/Sort.antt =====
-- `slice::sort_by` of Rust's standard library: a stable sort by a comparison, here by insertion.
use rathole_with_proxy.Base.{◌≡◌, ◌≢◌, ◌⊎◌, inl, inr, List, [], ◌∷◌, Ordering, All, In, arith}

module _ {A : Type 0} (c : A → A → Ordering) where
  unfoldable pub insert_sorted : A → List A → List A
  insert_sorted x [] = x ∷ []
  insert_sorted x (y ∷ ys) = elim (c x y) [ Ordering.gt ↦ y ∷ insert_sorted x ys | _ ↦ x ∷ y ∷ ys ]

  unfoldable pub sort_by : List A → List A
  unfolding insert_sorted
  sort_by [] = []
  sort_by (x ∷ xs) = insert_sorted x (sort_by xs)

  abbrev pub Sorted : List A → Type 0
  Sorted [] = Unit
  Sorted (x ∷ xs) = All (λ y. c x y ≢ Ordering.gt) xs × Sorted xs

  In-insert_sorted : (y x : A) (xs : List A) → (y ≡ x) ⊎ In y xs → In y (insert_sorted x xs)
  unfolding insert_sorted
  In-insert_sorted y x [] h = h
  In-insert_sorted y x (z ∷ zs) h = ground (arith, In-insert_sorted y x zs)

  insert_sorted-In : (y x : A) (xs : List A) → In y (insert_sorted x xs) → (y ≡ x) ⊎ In y xs
  unfolding insert_sorted
  insert_sorted-In y x [] h = h
  insert_sorted-In y x (z ∷ zs) h = ground (arith, insert_sorted-In y x zs)

  pub In-sort_by : (y : A) (xs : List A) → In y xs → In y (sort_by xs)
  unfolding sort_by
  In-sort_by y (x ∷ xs) (inl e) = In-insert_sorted y x (sort_by xs) (inl e)
  In-sort_by y (x ∷ xs) (inr h) = In-insert_sorted y x (sort_by xs) (inr (In-sort_by y xs h))
  In-sort_by y [] h = h

  pub sort_by-In : (y : A) (xs : List A) → In y (sort_by xs) → In y xs
  unfolding sort_by
  sort_by-In y [] h = h
  sort_by-In y (x ∷ xs) h = ground (arith, insert_sorted-In y x (sort_by xs), sort_by-In y xs)

  module _ (total : (x y : A) → c x y ≡ Ordering.gt → c y x ≢ Ordering.gt)
      (trans : (x y z : A) → c x y ≢ Ordering.gt → c y z ≢ Ordering.gt → c x z ≢ Ordering.gt) where
    All-trans :
        (x y : A) (ys : List A)
        → c x y ≢ Ordering.gt
        → All (λ z. c y z ≢ Ordering.gt) ys
        → All (λ z. c x z ≢ Ordering.gt) ys
    All-trans x y [] h a = tt
    All-trans x y (z ∷ zs) h a = (trans x y z h a.0, All-trans x y zs h a.1)

    All-insert_sorted :
        (y x : A) (xs : List A)
        → c y x ≢ Ordering.gt
        → All (λ z. c y z ≢ Ordering.gt) xs
        → All (λ z. c y z ≢ Ordering.gt) (insert_sorted x xs)
    unfolding insert_sorted
    All-insert_sorted y x [] h a = (h, tt)
    All-insert_sorted y x (z ∷ zs) h a = ground (arith, All-insert_sorted y x zs)

    insert_sorted-Sorted : (x : A) (xs : List A) → Sorted xs → Sorted (insert_sorted x xs)
    unfolding insert_sorted
    insert_sorted-Sorted x [] s = (tt, tt)
    insert_sorted-Sorted x (y ∷ ys) s =
        ground
          (arith, total x y, All-trans x y ys, All-insert_sorted y x ys, insert_sorted-Sorted x ys)

    pub sort_by-Sorted : (xs : List A) → Sorted (sort_by xs)
    unfolding sort_by
    sort_by-Sorted [] = tt
    sort_by-Sorted (x ∷ xs) = insert_sorted-Sorted x (sort_by xs) (sort_by-Sorted xs)
