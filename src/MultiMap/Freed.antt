-- ===== src/MultiMap/Freed.antt =====
-- The end of a table (rathole/src/multi_map.rs: impl Drop).
use rathole_with_proxy.Base.{ℕ, ◌≤◌, ◌≡◌, refl, none, some, [], ◌∷◌, Eq, All, arith}
use rathole_with_proxy.MultiMap.{MultiMap, Heap, Entries, store, free_all, drop_map}
use rathole_with_proxy.MultiMap.Table.{Table}
use rathole_with_proxy.MultiMap.Holds.{Holds, Holds-store}
use rathole_with_proxy.MultiMap.Refinement.{Represents}

module _ {K1 K2 V : Type 0} where
  free_all-Holds :
      (h : Heap K1 K2 V) (n : ℕ) (es : Entries) (xs : Table K1 K2 V)
      → Holds h n es xs
      → (g : Heap K1 K2 V) × (free_all es h ≡ some g)
        × All (λ e. g e.1 ≡ none) es
        × ((q : ℕ) → n ≤ q → g q ≡ h q)
  unfolding free_all
  free_all-Holds h n [] [] w = (h, refl, tt, (λ q le. refl))
  free_all-Holds h n [] (x ∷ xs) w = absurd w
  free_all-Holds h n (e ∷ es) [] w = absurd w
  free_all-Holds h n ((a, p) ∷ es) (x ∷ xs) w =
      let (g, f, all, same) =
        free_all-Holds (store h p none) p es xs (Holds-store h p p none es xs (omega arith) w.3) in
      (
        g,
        ground (arith, w.2, f),
        (ground (arith, same p (omega arith)), all),
        (λ q le. ground (arith, same q (omega arith), w.1)),
      )

  -- On pointers that represent a table, `Drop` frees every box of the table, and none twice.
  pub drop_map-Represents :
      ⦃e1 : Eq K1⦄ ⦃e2 : Eq K2⦄ (m : MultiMap K1 K2 V) (xs : Table K1 K2 V)
      → Represents m xs
      → (g : Heap K1 K2 V) × (drop_map m ≡ some g) × All (λ e. g e.1 ≡ none) m.map2
  unfolding drop_map
  drop_map-Represents m xs r =
      let (g, f, all, same) = free_all-Holds m.heap m.next m.map2 xs r.held2 in (g, f, all)
