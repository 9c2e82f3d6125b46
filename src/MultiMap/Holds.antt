-- ===== src/MultiMap/Holds.antt =====
-- The entries of a map hold the items of a table, each in a live box of its own
-- (rathole/src/multi_map.rs).
use rathole_with_proxy.Base.{
  ℕ, ◌≤◌, ◌<◌, ◌≡◌, ◌⊎◌, refl, inl, inr, Option, none, some, [], ◌∷◌, Eq, ◌==◌, All, arith,
  Bool-cases, true,
}
use rathole_with_proxy.MultiMap.{Item, Entries, Heap, store, find, take_out}
use rathole_with_proxy.MultiMap.Table.{Table, item_of, without}

-- Addresses fall along the entries and stay under the bound, so no two boxes are one.
abbrev pub Holds : {K1 K2 V : Type 0} → Heap K1 K2 V → ℕ → Entries → Table K1 K2 V → Type 0
Holds h n [] [] = Unit
Holds h n [] (x ∷ xs) = ⊥
Holds h n ((a, p) ∷ es) [] = ⊥
Holds h n ((a, p) ∷ es) (x ∷ xs) = (a ≡ p) × (p < n) × (h p ≡ some x) × Holds h p es xs

module _ {K1 K2 V : Type 0} where
  pub Holds-mono :
      (h : Heap K1 K2 V) (m n : ℕ) (es : Entries) (xs : Table K1 K2 V)
      → m ≤ n
      → Holds h m es xs
      → Holds h n es xs
  Holds-mono h m n [] [] le w = tt
  Holds-mono h m n [] (x ∷ xs) le w = w
  Holds-mono h m n (e ∷ es) [] le w = w
  Holds-mono h m n (e ∷ es) (x ∷ xs) le w = (w.0, (omega arith), w.2, w.3)

  -- A write to a box above the bound changes nothing.
  pub Holds-store :
      (h : Heap K1 K2 V) (n b : ℕ) (o : Option (Item K1 K2 V)) (es : Entries) (xs : Table K1 K2 V)
      → n ≤ b
      → Holds h n es xs
      → Holds (store h b o) n es xs
  Holds-store h n b o [] [] le w = tt
  Holds-store h n b o [] (x ∷ xs) le w = w
  Holds-store h n b o (e ∷ es) [] le w = w
  Holds-store h n b o ((a, p) ∷ es) (x ∷ xs) le w =
      (w.0, w.1, ground arith, Holds-store h p b o es xs (omega arith) w.3)

  module _ {K : Type 0} ⦃q : Eq K⦄ (key : Item K1 K2 V → K) where
    -- A lookup reads live boxes only, and finds the item of the key.
    pub find-Holds :
        (h : Heap K1 K2 V) (n : ℕ) (k : K) (es : Entries) (xs : Table K1 K2 V)
        → Holds h n es xs
        → ((find key h k es ≡ some none) × (item_of key k xs ≡ none))
          ⊎ ((p : ℕ) × (x : Item K1 K2 V) × (find key h k es ≡ some (some p))
              × (h p ≡ some x)
              × (item_of key k xs ≡ some x))
    unfolding find item_of
    find-Holds h n k [] [] w = inl (refl, refl)
    find-Holds h n k [] (x ∷ xs) w = absurd w
    find-Holds h n k (e ∷ es) [] w = absurd w
    find-Holds h n k ((a, p) ∷ es) (x ∷ xs) w = elim (Bool-cases (key x == k)) [
      | inl hit ↦ inr (p, x, ground arith, w.2, ground arith)
      | inr miss ↦ elim (find-Holds h p k es xs w.3) [
        | inl (f, i) ↦ inl (ground arith, ground arith)
        | inr (r, y, f, b, i) ↦ inr (r, y, ground arith, b, ground arith)
      ]
    ]

    -- A removal reads live boxes only. With the box of the key freed, the entries that stay hold the
    -- table without the item.
    pub take_out-Holds :
        (h : Heap K1 K2 V) (n : ℕ) (k : K) (es : Entries) (xs : Table K1 K2 V)
        → Holds h n es xs
        → ((take_out key h k es ≡ some none) × (item_of key k xs ≡ none) × (without key k xs ≡ xs))
          ⊎ ((p : ℕ) × (rest : Entries) × (x : Item K1 K2 V) × (take_out key h k es
                ≡ some (some (p, rest)))
              × (p < n)
              × (h p ≡ some x)
              × (item_of key k xs ≡ some x)
              × Holds (store h p none) n rest (without key k xs))
    unfolding take_out item_of without
    take_out-Holds h n k [] [] w = inl (refl, refl, refl)
    take_out-Holds h n k [] (x ∷ xs) w = absurd w
    take_out-Holds h n k (e ∷ es) [] w = absurd w
    take_out-Holds h n k ((a, p) ∷ es) (x ∷ xs) w = elim (Bool-cases (key x == k)) [
      | inl hit ↦ inr (
        p,
        es,
        x,
        ground arith,
        w.1,
        w.2,
        ground arith,
        rw hit
            (Holds-mono _ p n es xs (omega arith) (Holds-store h p p none es xs (omega arith) w.3)),
      )
      | inr miss ↦ elim (take_out-Holds h p k es xs w.3) [
        | inl (f, i, s) ↦ inl (ground arith, ground arith, ground arith)
        | inr (r, rest, y, f, lt, b, i, held) ↦ inr (
          r,
          (a, p) ∷ rest,
          y,
          ground arith,
          omega arith,
          b,
          ground arith,
          rw miss (w.0, w.1, ground arith, held),
        )
      ]
    ]

    pub All-without :
        (P : Item K1 K2 V → Type 0) (k : K) (xs : Table K1 K2 V)
        → All P xs
        → All P (without key k xs)
    unfolding without
    All-without P k [] a = tt
    All-without P k (x ∷ xs) a = ground (arith, All-without P k xs a.1)

    pub All-item_of :
        (P : Item K1 K2 V → Type 0) (k : K) (x : Item K1 K2 V) (xs : Table K1 K2 V)
        → All P xs
        → item_of key k xs ≡ some x
        → P x
    unfolding item_of
    All-item_of P k x [] a e = absurd (cc)
    All-item_of P k x (y ∷ ys) a e = elim (Bool-cases (key y == k)) [
      | inl hit ↦ rw (← head_item y x ys hit e) a.0
      | inr miss ↦ All-item_of P k x ys a.1 (rw miss at e)
    ]
      where
        head_item :
            (y x : Item K1 K2 V) (ys : Table K1 K2 V)
            → (key y == k) ≡ true
            → item_of key k (y ∷ ys) ≡ some x
            → y ≡ x
        head_item y x ys hit e = ground arith
