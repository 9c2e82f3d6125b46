-- ===== src/Base/Map.antt =====
-- `std::collections::HashMap` as an association list. Its order of iteration is unspecified, so the
-- theorems hold for a list in any order.
use mathlib.Core.Path.{◌≡◌, refl}
use mathlib.Core.Logic.{inl, inr}
use mathlib.Core.Bool.{Bool, true, false}
use mathlib.Core.List.{List, [], ◌∷◌, map}
use mathlib.Core.Option.{Option, none, some}
use native.Mathlib.Omega.{arith}
use rathole_with_proxy.Base.Lists.{In}
use rathole_with_proxy.Base.Tests.{Bool-cases, Eq, ◌==◌, ==_iff, if◌then◌else◌}

abbrev pub HashMap {ℓ κ} : Type ℓ → Type κ → Type (ℓ ⊔ κ)
HashMap K V = List (K × V)

module _ {ℓ κ} {K : Type ℓ} {V : Type κ} where
  abbrev pub keys : HashMap K V → List K
  keys m = map (λ e. e.0) m

module _ {ℓ κ} {K : Type ℓ} {V : Type κ} ⦃e : Eq K⦄ where
  unfoldable pub get : K → HashMap K V → Option V
  get k [] = none
  get k ((j, v) ∷ m) = if j == k then some v else get k m

  unfoldable pub insert : K → V → HashMap K V → HashMap K V
  insert k v [] = (k, v) ∷ []
  insert k v ((i, u) ∷ rest) = if i == k then (k, v) ∷ rest else (i, u) ∷ insert k v rest

  unfoldable pub remove : K → HashMap K V → HashMap K V
  remove k [] = []
  remove k ((j, v) ∷ m) = let rest = remove k m in if j == k then rest else (j, v) ∷ rest

  unfoldable pub contains_key : K → HashMap K V → Bool
  contains_key k [] = false
  contains_key k ((j, v) ∷ m) = if j == k then true else contains_key k m

  pub get-insert :
      (k j : K) (v : V) (m : HashMap K V)
      → get j (insert k v m) ≡ (if k == j then some v else get j m)
  unfolding get insert
  get-insert k j v [] = refl
  get-insert k j v ((i, w) ∷ m) =
      ground (arith, ==_iff k j, ==_iff i k, ==_iff i j, get-insert k j v m)

  pub get-remove :
      (k j : K) (m : HashMap K V) → get j (remove k m) ≡ (if k == j then none else get j m)
  unfolding get remove
  get-remove k j [] = ground arith
  get-remove k j ((i, w) ∷ m) = ground (arith, ==_iff k j, ==_iff i k, ==_iff i j, get-remove k j m)

module _ {K V : Type 0} ⦃e : Eq K⦄ where
  pub In-keys : (k : K) (m : HashMap K V) (v : V) → get k m ≡ some v → In k (keys m)
  unfolding get
  In-keys k [] v h = cc
  In-keys k ((j, w) ∷ m) v h = ground (arith, ==_iff j k, In-keys k m v)

  pub get-keys : (k : K) (m : HashMap K V) → In k (keys m) → (v : V) × (get k m ≡ some v)
  unfolding get
  get-keys k [] h = absurd h
  get-keys k ((j, w) ∷ m) h = elim (Bool-cases (j == k)) [
    | inl same ↦ (w, rw same)
    | inr other ↦ rw other (get-keys k m (ground (arith, ==_iff j k)))
  ]

  -- An entry that iteration meets is in the map.
  pub In-get : (k : K) (v : V) (m : HashMap K V) → get k m ≡ some v → In (k, v) m
  unfolding get
  In-get k v [] h = cc
  In-get k v ((j, w) ∷ m) h = ground (arith, ==_iff j k, In-get k v m)

pub ruleset map_laws = (get-insert, get-remove)
