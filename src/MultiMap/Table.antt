-- ===== src/MultiMap/Table.antt =====
-- What the table promises (rathole/src/multi_map.rs): a list of items, at most one for each first
-- key and at most one for each second key.
use rathole_with_proxy.Base.{
  ◌≢◌, Option, none, some, List, [], ◌∷◌, Eq, ◌==◌, All, ◌||◌, if◌then◌else◌,
}
use rathole_with_proxy.MultiMap.{Item, key1, key2, is_some}

abbrev pub Table : Type 0 → Type 0 → Type 0 → Type 0
Table K1 K2 V = List (K1 × K2 × V)

module _ {K1 K2 V K : Type 0} ⦃e : Eq K⦄ (key : Item K1 K2 V → K) where
  -- The item of a key.
  unfoldable pub item_of : K → Table K1 K2 V → Option (Item K1 K2 V)
  item_of k [] = none
  item_of k (x ∷ xs) = if key x == k then some x else item_of k xs

  -- The table without the item of a key.
  unfoldable pub without : K → Table K1 K2 V → Table K1 K2 V
  without k [] = []
  without k (x ∷ xs) = if key x == k then xs else x ∷ without k xs

  -- No two items have one key.
  abbrev pub Distinct : Table K1 K2 V → Type 0
  Distinct [] = Unit
  Distinct (x ∷ xs) = All (λ y. key x ≢ key y) xs × Distinct xs

module _ {K1 K2 V : Type 0} where
  abbrev pub value_of : Option (Item K1 K2 V) → Option V
  value_of none = none
  value_of (some x) = some x.2

  -- The table with another value in one item.
  unfoldable pub with_value :
      {K : Type 0} ⦃e : Eq K⦄ (key : Item K1 K2 V → K) → K → V → Table K1 K2 V → Table K1 K2 V
  with_value key k v [] = []
  with_value key k v (x ∷ xs) = if key x == k then (x.0, x.1, v) ∷ xs else x ∷ with_value key k v xs

-- An item is stored unless one of its keys is taken.
unfoldable pub table_insert :
    {K1 K2 V : Type 0} ⦃e1 : Eq K1⦄ ⦃e2 : Eq K2⦄ → K1 → K2 → V → Table K1 K2 V → Table K1 K2 V
unfolding item_of
table_insert k1 k2 v xs =
    if is_some (item_of key1 k1 xs) || is_some (item_of key2 k2 xs) then xs else (k1, k2, v) ∷ xs
