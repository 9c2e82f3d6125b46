-- ===== src/MultiMap/Distinct.antt =====
-- Removals by either key are one removal where keys are distinct (rathole/src/multi_map.rs).
use rathole_with_proxy.Base.{
  ℕ, ◌≡◌, ◌≢◌, inl, inr, some, [], ◌∷◌, Eq, ◌==◌, ==_iff, ==_refl, arith, Bool-cases,
}
use rathole_with_proxy.MultiMap.{Item, Entries, Heap, take_out}
use rathole_with_proxy.MultiMap.Table.{Table, without, Distinct}
use rathole_with_proxy.MultiMap.Holds.{Holds, take_out-Holds, All-without, All-item_of}

module _ {K1 K2 V K K' : Type 0} ⦃q : Eq K⦄ ⦃r : Eq K'⦄ (key : Item K1 K2 V → K)
    (key' : Item K1 K2 V → K') where
  pub Distinct-without :
      (k : K) (xs : Table K1 K2 V) → Distinct key' xs → Distinct key' (without key k xs)
  unfolding without
  Distinct-without k [] d = tt
  Distinct-without k (x ∷ xs) d =
      ground (arith, Distinct-without k xs d.1, All-without key (λ y. key' x ≢ key' y) k xs d.0)

  -- The other map gives up the same entry for the other key of the item.
  pub take_out-other :
      (h : Heap K1 K2 V) (n : ℕ) (k : K) (es : Entries) (xs : Table K1 K2 V)
      → Holds h n es xs
      → Distinct key' xs
      → (p : ℕ) (rest : Entries) (x : Item K1 K2 V) → take_out key h k es ≡ some (some (p, rest))
      → h p ≡ some x
      → take_out key' h (key' x) es ≡ some (some (p, rest))
  unfolding take_out
  take_out-other h n k [] xs w d p rest x t b = absurd (cc)
  take_out-other h n k (e ∷ es) [] w d p rest x t b = absurd w
  take_out-other h n k ((a, o) ∷ es) (y ∷ ys) w d p rest x t b = elim (Bool-cases (key y == k)) [
    | inl hit ↦ ground (arith, ==_refl (key' y))
    | inr miss ↦ elim (take_out-Holds key h o k es ys w.3) [
      | inl (f, _, _) ↦ absurd (ground arith)
      | inr (s, left, z, f, lt, c, i, _) ↦ ground (
        arith,
        take_out-other h o k es ys w.3 d.1 s left z f c,
        All-item_of key (λ u. key' y ≢ key' u) k z ys d.0 i,
        ==_iff (key' y) (key' x),
      )
    ]
  ]
