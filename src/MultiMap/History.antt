-- ===== src/MultiMap/History.antt =====
-- Any history of calls on the table (rathole/src/multi_map.rs).
use rathole_with_proxy.Base.{
  ◌≡◌, ◌≢◌, ◌⊎◌, refl, inl, inr, true, ◌||◌, Option, none, some, List, [], ◌∷◌, Eq, arith,
  if◌then◌else◌,
}
use rathole_with_proxy.MultiMap.{
  MultiMap, Item, new, insert, get1, get2, remove1, remove2, key1, key2, is_some, ◌>>=◌,
}
use rathole_with_proxy.MultiMap.Table.{Table, item_of, without, value_of}
use rathole_with_proxy.MultiMap.Refinement.{
  Represents, new-Represents, insert-Represents, get1-Represents, get2-Represents,
  remove1-Represents, remove2-Represents,
}

pub data Op (K1 K2 V : Type 0) : Type 0 where
  inserts : K1 → K2 → V → Op K1 K2 V
  gets1 removes1 : K1 → Op K1 K2 V
  gets2 removes2 : K2 → Op K1 K2 V

-- What a call returns: the item that insert refuses, if any, or the value of a key.
pub data Answer (K1 K2 V : Type 0) : Type 0 where
  refuses : Option (Item K1 K2 V) → Answer K1 K2 V
  value : Option V → Answer K1 K2 V

is_some_either :
    {A B : Type 0} (a : Option A) (b : Option B)
    → (a ≢ none) ⊎ (b ≢ none)
    → (is_some a || is_some b) ≡ true
is_some_either a b h = ground arith

module _ {K1 K2 V : Type 0} ⦃e1 : Eq K1⦄ ⦃e2 : Eq K2⦄ where
  abbrev pub step : Op K1 K2 V → MultiMap K1 K2 V → Option (MultiMap K1 K2 V × Answer K1 K2 V)
  step (inserts k1 k2 v) m = insert k1 k2 v m >>= λ r. some (r.0, refuses r.1)
  step (gets1 k) m = get1 k m >>= λ v. some (m, value v)
  step (gets2 k) m = get2 k m >>= λ v. some (m, value v)
  step (removes1 k) m = remove1 k m >>= λ r. some (r.0, value r.1)
  step (removes2 k) m = remove2 k m >>= λ r. some (r.0, value r.1)

  -- The same calls on the table of items.
  abbrev pub table_step : Op K1 K2 V → Table K1 K2 V → Table K1 K2 V × Answer K1 K2 V
  table_step (inserts k1 k2 v) xs =
      if is_some (item_of key1 k1 xs) || is_some (item_of key2 k2 xs)
      then (xs, refuses (some (k1, k2, v)))
      else ((k1, k2, v) ∷ xs, refuses none)
  table_step (gets1 k) xs = (xs, value (value_of (item_of key1 k xs)))
  table_step (gets2 k) xs = (xs, value (value_of (item_of key2 k xs)))
  table_step (removes1 k) xs = (without key1 k xs, value (value_of (item_of key1 k xs)))
  table_step (removes2 k) xs = (without key2 k xs, value (value_of (item_of key2 k xs)))

  pub run : List (Op K1 K2 V) → MultiMap K1 K2 V → Option (MultiMap K1 K2 V × List (Answer K1 K2 V))
  run [] m = some (m, [])
  run (o ∷ os) m = do (m', a) ← step o m; (m'', as') ← run os m'; some (m'', a ∷ as')

  pub table_run : List (Op K1 K2 V) → Table K1 K2 V → Table K1 K2 V × List (Answer K1 K2 V)
  table_run [] xs = (xs, [])
  table_run (o ∷ os) xs =
      let (ys, a) = table_step o xs in let (zs, l) = table_run os ys in (zs, a ∷ l)

  -- A step of the table with pointers is the step of the table of items.
  abbrev Agrees : Op K1 K2 V → MultiMap K1 K2 V → Table K1 K2 V → Type 0
  Agrees o m xs =
      (m' : MultiMap K1 K2 V) × (step o m ≡ some (m', (table_step o xs).1))
      × Represents m' (table_step o xs).0

  step-Agrees :
      (o : Op K1 K2 V) (m : MultiMap K1 K2 V) (xs : Table K1 K2 V) → Represents m xs → Agrees o m xs
  step-Agrees (inserts k1 k2 v) m xs r = elim (insert-Represents m xs r k1 k2 v) [
    | inl (e, taken) ↦ (m, ground arith, rw (is_some_either _ _ taken) r)
    | inr (m', e, i, j, w) ↦ (m', ground arith, rw (i, j) w)
  ]
  step-Agrees (gets1 k) m xs r = (m, rw (get1-Represents m xs r k), r)
  step-Agrees (gets2 k) m xs r = (m, rw (get2-Represents m xs r k), r)
  step-Agrees (removes1 k) m xs r = let (m', e, w) = remove1-Represents m xs r k in (m', rw e, w)
  step-Agrees (removes2 k) m xs r = let (m', e, w) = remove2-Represents m xs r k in (m', rw e, w)

  run-Agrees :
      (os : List (Op K1 K2 V)) (m : MultiMap K1 K2 V) (xs : Table K1 K2 V)
      → Represents m xs
      → (m' : MultiMap K1 K2 V) × (run os m ≡ some (m', (table_run os xs).1))
        × Represents m' (table_run os xs).0
  unfolding run table_run
  run-Agrees [] m xs r = (m, refl, r)
  run-Agrees (o ∷ os) m xs r =
      let (m', e, w) = step-Agrees o m xs r in
      let (m'', d, v) = run-Agrees os m' (table_step o xs).0 w in (m'', rw (e, d), v)

  -- No history of calls on a new table reads or frees a box that is not there, and every
  -- answer is that of the table of items, which the pointers still represent at the end.
  pub run-table_run :
      (os : List (Op K1 K2 V))
      → (m : MultiMap K1 K2 V) × (run os new ≡ some (m, (table_run os []).1))
        × Represents m (table_run os []).0
  run-table_run os = run-Agrees os new [] new-Represents
