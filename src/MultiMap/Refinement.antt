-- ===== src/MultiMap/Refinement.antt =====
-- The table with pointers does what the table of items promises, and never meets undefined behaviour
-- (rathole/src/multi_map.rs).
use rathole_with_proxy.Base.{
  suc, ◌≡◌, ◌≢◌, ◌⊎◌, refl, inl, inr, none, some, [], ◌∷◌, Eq, ==_iff, All, arith, subst, ap, sym,
}
use rathole_with_proxy.MultiMap.{
  MultiMap, Item, store, take_out, new, insert, get1, get2, remove1, remove2, key1, key2,
}
use rathole_with_proxy.MultiMap.Table.{Table, item_of, without, Distinct, value_of}
use rathole_with_proxy.MultiMap.Holds.{Holds, Holds-store, find-Holds, take_out-Holds}
use rathole_with_proxy.MultiMap.Distinct.{Distinct-without, take_out-other}

module _ {K1 K2 V : Type 0} ⦃e1 : Eq K1⦄ ⦃e2 : Eq K2⦄ where
  -- Both maps have the same entries, which hold the items; keys are distinct.
  pub record Represents (m : MultiMap K1 K2 V) (xs : Table K1 K2 V) : Type 0 where
    pub same : m.map1 ≡ m.map2
    pub held : Holds m.heap m.next m.map1 xs
    pub held2 : Holds m.heap m.next m.map2 xs
    pub first : Distinct (key1 {K1 = K1} {K2 = K2} {V = V}) xs
    pub second : Distinct (key2 {K1 = K1} {K2 = K2} {V = V}) xs

  pub new-Represents : Represents new []
  unfolding new
  new-Represents = record { same = refl; held = tt; held2 = tt; first = tt; second = tt }

  item_of-fresh :
      {K : Type 0} ⦃q : Eq K⦄ (key : Item K1 K2 V → K) (x : Item K1 K2 V) (xs : Table K1 K2 V)
      → item_of key (key x) xs ≡ none
      → All (λ y. key x ≢ key y) xs
  unfolding item_of
  item_of-fresh key x [] h = tt
  item_of-fresh key x (y ∷ ys) h =
      ((λ e. ground (arith, ==_iff (key y) (key x))), item_of-fresh key x ys (ground arith))

  -- The table with one more item in a new box.
  stored : MultiMap K1 K2 V → K1 → K2 → V → MultiMap K1 K2 V
  stored m k1 k2 v = record m {
    map1 = (m.next, m.next) ∷ m.map1;
    map2 = (m.next, m.next) ∷ m.map2;
    heap = store m.heap m.next (some (k1, k2, v));
    next = suc m.next;
  }

  module _ (m : MultiMap K1 K2 V) (xs : Table K1 K2 V) (r : Represents m xs) where
    stored-Represents :
        (k1 : K1) (k2 : K2) (v : V)
        → item_of key1 k1 xs ≡ none
        → item_of key2 k2 xs ≡ none
        → Represents (stored m k1 k2 v) ((k1, k2, v) ∷ xs)
    unfolding stored
    stored-Represents k1 k2 v i j = record {
      same = ap (◌∷◌ (m.next, m.next)) r.same;
      held = (
        refl,
        (omega arith),
        ground arith,
        Holds-store m.heap m.next m.next _ m.map1 xs (omega arith) r.held,
      );
      held2 = (
        refl,
        (omega arith),
        ground arith,
        Holds-store m.heap m.next m.next _ m.map2 xs (omega arith) r.held2,
      );
      first = (item_of-fresh key1 (k1, k2, v) xs i, r.first);
      second = (item_of-fresh key2 (k1, k2, v) xs j, r.second);
    }

    -- On pointers that represent a table, an item whose first or second key is taken comes
    -- back and nothing changes; any other is stored, and the pointers represent the table
    -- with it.
    pub insert-Represents :
        (k1 : K1) (k2 : K2) (v : V)
        → ((insert k1 k2 v m ≡ some (m, some (k1, k2, v)))
            × ((item_of key1 k1 xs ≢ none) ⊎ (item_of key2 k2 xs ≢ none)))
          ⊎ ((m' : MultiMap K1 K2 V) × (insert k1 k2 v m ≡ some (m', none))
              × (item_of key1 k1 xs ≡ none)
              × (item_of key2 k2 xs ≡ none)
              × Represents m' ((k1, k2, v) ∷ xs))
    unfolding insert stored
    insert-Represents k1 k2 v = elim (find-Holds key1 m.heap m.next k1 m.map1 xs r.held) [
      | inr (p, x, f, b, i) ↦ inl (
        ground (arith, find-Holds key2 m.heap m.next k2 m.map2 xs r.held2),
        inl (λ e. ground arith),
      )
      | inl (f, i) ↦ elim (find-Holds key2 m.heap m.next k2 m.map2 xs r.held2) [
        | inr (p, x, g, b, j) ↦ inl (ground arith, inr (λ e. ground arith))
        | inl (g, j) ↦ inr (stored m k1 k2 v, ground arith, i, j, stored-Represents k1 k2 v i j)
      ]
    ]

    pub get1-Represents : (k : K1) → get1 k m ≡ some (value_of (item_of key1 k xs))
    unfolding get1
    get1-Represents k = ground (arith, find-Holds key1 m.heap m.next k m.map1 xs r.held)

    pub get2-Represents : (k : K2) → get2 k m ≡ some (value_of (item_of key2 k xs))
    unfolding get2
    get2-Represents k = ground (arith, find-Holds key2 m.heap m.next k m.map2 xs r.held2)

    -- On pointers that represent a table, a removal by a first key returns the value of
    -- the item with that key, if there is one, and leaves pointers that represent the
    -- table without that item: it is gone for its second key too, and no other item is.
    pub remove1-Represents :
        (k : K1)
        → (m' : MultiMap K1 K2 V) × (remove1 k m ≡ some (m', value_of (item_of key1 k xs)))
          × Represents m' (without key1 k xs)
    unfolding remove1
    remove1-Represents k = elim (take_out-Holds key1 m.heap m.next k m.map1 xs r.held) [
      | inl (t, i, w) ↦ (m, ground arith, rw w r)
      | inr (p, rest, x, t, lt, b, i, held) ↦ (
        record m { map1 = rest; map2 = rest; heap = store m.heap p none },
        ground (
          arith,
          subst (λ z. take_out key2 m.heap (key2 x) z ≡ some (some (p, rest))) r.same
              (take_out-other key1 key2 m.heap m.next k m.map1 xs r.held r.second p rest x t b),
        ),
        record {
          same = refl;
          held = held;
          held2 = held;
          first = Distinct-without key1 key1 k xs r.first;
          second = Distinct-without key1 key2 k xs r.second;
        },
      )
    ]

    -- On pointers that represent a table, a removal by a second key returns the value of
    -- the item with that key, if there is one, and leaves pointers that represent the
    -- table without that item: it is gone for its first key too, and no other item is.
    pub remove2-Represents :
        (k : K2)
        → (m' : MultiMap K1 K2 V) × (remove2 k m ≡ some (m', value_of (item_of key2 k xs)))
          × Represents m' (without key2 k xs)
    unfolding remove2
    remove2-Represents k = elim (take_out-Holds key2 m.heap m.next k m.map2 xs r.held2) [
      | inl (t, i, w) ↦ (m, ground arith, rw w r)
      | inr (p, rest, x, t, lt, b, i, held) ↦ (
        record m { map1 = rest; map2 = rest; heap = store m.heap p none },
        ground (
          arith,
          subst (λ z. take_out key1 m.heap (key1 x) z ≡ some (some (p, rest))) (sym r.same)
              (take_out-other key2 key1 m.heap m.next k m.map2 xs r.held2 r.first p rest x t b),
        ),
        record {
          same = refl;
          held = held;
          held2 = held;
          first = Distinct-without key2 key1 k xs r.first;
          second = Distinct-without key2 key2 k xs r.second;
        },
      )
    ]
