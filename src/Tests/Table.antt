-- ===== src/Tests/Table.antt =====
-- Inputs for the table of rathole/src/multi_map.rs.
use rathole_with_proxy.Base.{ℕ, ◌≡◌, refl, none, some, List, [], ◌∷◌, nat_eq, arith}
use rathole_with_proxy.MultiMap.{MultiMap, store, new, remove1, key1}
use rathole_with_proxy.MultiMap.Table.{Table, item_of, without, value_of}
use rathole_with_proxy.MultiMap.Refinement.{Represents, remove1-Represents}
use rathole_with_proxy.MultiMap.History.{
  Op, inserts, gets2, removes1, run, table_run, run-table_run,
}

abbrev calls : List (Op ℕ ℕ ℕ)
calls = inserts 1 10 100 ∷ inserts 2 20 200 ∷ gets2 20 ∷ removes1 1 ∷ inserts 1 20 300 ∷ []

run-table_run_example :
    (m : MultiMap ℕ ℕ ℕ) × (run calls new ≡ some (m, (table_run calls []).1))
    × Represents m (table_run calls []).0
run-table_run_example = run-table_run calls

-- A table with one item.
abbrev one : Table ℕ ℕ ℕ
one = (1, 10, 100) ∷ []

abbrev one_map : MultiMap ℕ ℕ ℕ
one_map = record {
  map1 = (0, 0) ∷ [];
  map2 = (0, 0) ∷ [];
  heap = store (λ a. none) 0 (some (1, 10, 100));
  next = 1;
}

one-Represents : Represents one_map one
one-Represents = record {
  same = refl;
  held = (refl, (omega arith), refl, tt);
  held2 = (refl, (omega arith), refl, tt);
  first = (tt, tt);
  second = (tt, tt);
}

remove1-Represents_example :
    (m : MultiMap ℕ ℕ ℕ) × (remove1 1 one_map ≡ some (m, value_of (item_of key1 1 one)))
    × Represents m (without key1 1 one)
remove1-Represents_example = remove1-Represents one_map one one-Represents 1
