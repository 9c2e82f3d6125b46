-- ===== src/MultiMap.antt =====
-- A table indexed by two keys (rathole/src/multi_map.rs), with its raw pointers: an item is a box on
-- a heap, and both maps hold its address twice, as the pointer to the key (`Key`) and as the pointer
-- to the item (`RawItem`). `none` is undefined behaviour, a read or a free of a box that is not
-- there. A lookup reads every key that it passes, as a rehash of the hash map would.
pub mod Table
pub mod Holds
pub mod Distinct
pub mod Refinement
pub mod History
pub mod Freed
use rathole_with_proxy.Base.{
  ℕ, suc, Bool, true, false, ◌||◌, Option, none, some, List, [], ◌∷◌, Eq, ◌==◌, eqb, if◌then◌else◌,
}

-- The entries of a map: the address behind the key, and the address of the item.
abbrev pub Entries : Type 0
Entries = List (ℕ × ℕ)

-- An entry that a removal passes stays.
abbrev pub kept : ℕ × ℕ → Option (ℕ × Entries) → Option (ℕ × Entries)
kept e none = none
kept e (some (p, es)) = some (p, e ∷ es)

-- The entries that stay when a removal finds no key.
abbrev pub rest_of : Entries → Option (ℕ × Entries) → Entries
rest_of es none = es
rest_of es (some (p, rest)) = rest

abbrev pub is_some : {A : Type 0} → Option A → Bool
is_some none = false
is_some (some a) = true

module _ (K1 K2 V : Type 0) where
  -- What a box holds: `(K1, K2, V)`.
  abbrev pub Item : Type 0
  Item = K1 × K2 × V

  abbrev pub Heap : Type 0
  Heap = ℕ → Option Item

  -- The heap has every box of the table; boxes from `next` on are not in use.
  pub record MultiMap : Type 0 where
    pub map1 : Entries
    pub map2 : Entries
    pub heap : Heap
    pub next : ℕ

infixl 5 ◌>>=◌
abbrev pub ◌>>=◌ : {A B : Type 0} → Option A → (A → Option B) → Option B
none >>= k = none
some a >>= k = k a

module _ {K1 K2 V : Type 0} where
  -- A box at the address holds the item, or none does.
  abbrev pub store : Heap K1 K2 V → ℕ → Option (Item K1 K2 V) → Heap K1 K2 V
  store h a o b = if eqb b a then o else h b

  -- `Box::from_raw` and its drop, for one entry after the other.
  unfoldable pub free_all : Entries → Heap K1 K2 V → Option (Heap K1 K2 V)
  free_all [] h = some h
  free_all ((a, p) ∷ es) h = elim (h p) [ none ↦ none | some x ↦ free_all es (store h p none) ]

  -- The heap after `Drop`.
  unfoldable pub drop_map : MultiMap K1 K2 V → Option (Heap K1 K2 V)
  unfolding free_all
  drop_map m = free_all m.map2 m.heap

  unfoldable pub new : MultiMap K1 K2 V
  new = record { map1 = []; map2 = []; heap = λ a. none; next = 0 }

module _ {K1 K2 V K : Type 0} ⦃e : Eq K⦄ (key : Item K1 K2 V → K) where
  -- `HashMap::get`, with the keys read through their pointers.
  unfoldable pub find : Heap K1 K2 V → K → Entries → Option (Option ℕ)
  find h k [] = some none
  find h k ((a, p) ∷ es) = elim (h a) [
    | none ↦ none
    | some x ↦ if key x == k then some (some p) else find h k es
  ]

  -- `HashMap::remove`
  unfoldable pub take_out : Heap K1 K2 V → K → Entries → Option (Option (ℕ × Entries))
  take_out h k [] = some none
  take_out h k ((a, p) ∷ es) = elim (h a) [
    | none ↦ none
    | some x ↦
        let rest = (take_out h k es >>= λ r. some (kept (a, p) r)) in
        if key x == k then some (some (p, es)) else rest
  ]

module _ {K1 K2 V : Type 0} ⦃e1 : Eq K1⦄ ⦃e2 : Eq K2⦄ where
  abbrev pub key1 : Item K1 K2 V → K1
  key1 x = x.0

  abbrev pub key2 : Item K1 K2 V → K2
  key2 x = x.1

  -- The refused item comes back, or `Ok(())`.
  unfoldable pub insert :
      K1 → K2 → V → MultiMap K1 K2 V → Option (MultiMap K1 K2 V × Option (Item K1 K2 V))
  unfolding find
  insert k1 k2 v m = do
    in1 ← find key1 m.heap k1 m.map1
    in2 ← find key2 m.heap k2 m.map2
    if is_some in1 || is_some in2
        then some (m, some (k1, k2, v))
        else some (
          record m {
            map1 = (m.next, m.next) ∷ m.map1;
            map2 = (m.next, m.next) ∷ m.map2;
            heap = store m.heap m.next (some (k1, k2, v));
            next = suc m.next;
          },
          none,
        )

  -- The value behind an address that a map gave.
  abbrev pub value_at : Heap K1 K2 V → Option ℕ → Option (Option V)
  value_at h none = some none
  value_at h (some p) = elim (h p) [ none ↦ none | some x ↦ some (some x.2) ]

  unfoldable pub get1 : K1 → MultiMap K1 K2 V → Option (Option V)
  unfolding find
  get1 k1 m = find key1 m.heap k1 m.map1 >>= value_at m.heap

  unfoldable pub get2 : K2 → MultiMap K1 K2 V → Option (Option V)
  unfolding find
  get2 k2 m = find key2 m.heap k2 m.map2 >>= value_at m.heap

  -- A write through the pointer that get1_mut returns.
  abbrev pub set_value : V → MultiMap K1 K2 V → Option ℕ → Option (MultiMap K1 K2 V × Bool)
  set_value v m none = some (m, false)
  set_value v m (some p) = elim (m.heap p) [
    | none ↦ none
    | some x ↦ some (record m { heap = store m.heap p (some (x.0, x.1, v)) }, true)
  ]

  unfoldable pub set1 : K1 → V → MultiMap K1 K2 V → Option (MultiMap K1 K2 V × Bool)
  unfolding find
  set1 k1 v m = find key1 m.heap k1 m.map1 >>= set_value v m

  unfoldable pub set2 : K2 → V → MultiMap K1 K2 V → Option (MultiMap K1 K2 V × Bool)
  unfolding find
  set2 k2 v m = find key2 m.heap k2 m.map2 >>= set_value v m

  -- After the removal from map1: the box is read, its second key leaves map2, and the box is freed.
  abbrev pub finish1 :
      MultiMap K1 K2 V → Option (ℕ × Entries) → Option (MultiMap K1 K2 V × Option V)
  finish1 m none = some (m, none)
  finish1 m (some (p, es)) = do
    item ← m.heap p
    out ← take_out key2 m.heap item.1 m.map2
    some
        (record m { map1 = es; map2 = rest_of m.map2 out; heap = store m.heap p none }, some item.2)

  unfoldable pub remove1 : K1 → MultiMap K1 K2 V → Option (MultiMap K1 K2 V × Option V)
  unfolding take_out
  remove1 k1 m = take_out key1 m.heap k1 m.map1 >>= finish1 m

  abbrev pub finish2 :
      MultiMap K1 K2 V → Option (ℕ × Entries) → Option (MultiMap K1 K2 V × Option V)
  finish2 m none = some (m, none)
  finish2 m (some (p, es)) = do
    item ← m.heap p
    out ← take_out key1 m.heap item.0 m.map1
    some
        (record m { map1 = rest_of m.map1 out; map2 = es; heap = store m.heap p none }, some item.2)

  unfoldable pub remove2 : K2 → MultiMap K1 K2 V → Option (MultiMap K1 K2 V × Option V)
  unfolding take_out
  remove2 k2 m = take_out key2 m.heap k2 m.map2 >>= finish2 m
