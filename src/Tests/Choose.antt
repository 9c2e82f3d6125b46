-- ===== src/Tests/Choose.antt =====
-- Inputs for the choice of a tunnel in rathole/src/proxy.rs.
use rathole_with_proxy.Base.{
  ℕ, ◌≡◌, refl, true, some, List, [], ◌∷◌, Text, text_eq, codes, HashMap, get, arith, subst, inl,
  inr, ◌==◌, Bool-cases,
}
use rathole_with_proxy.Float.Scaled.{scaled, scaled-IsIeee}
use rathole_with_proxy.Health.{TunnelHealth, default, record_failure, secs}
use rathole_with_proxy.Health.Transitions.{Mark, failure, mark, run}
use rathole_with_proxy.Health.Rates.{WellFormed, run-WellFormed, default-WellFormed}
use rathole_with_proxy.Proxy.Choose.{
  is_candidate, choose_best_tunnel, pick_registered, compare_health,
}
use rathole_with_proxy.Sort.{sort_by, insert_sorted}
use rathole_with_proxy.Proxy.Choose.Order.{AllWellFormed}
use rathole_with_proxy.Proxy.Choose.Better.{Better}
use rathole_with_proxy.Proxy.Choose.Best.{choose_best_tunnel-best}

abbrev tunnels : HashMap Text ℕ
tunnels = (codes "app-01", 1) ∷ (codes "app-02", 2) ∷ (codes "web", 3) ∷ []

abbrev marks : List (Mark ℕ)
marks =
    failure (record { created = 0; updated = secs 20; recorded = secs 20; decided = secs 20 }) ∷ []

abbrev health : HashMap Text (TunnelHealth ℕ)
health =
    (codes "app-01", run scaled (default scaled 0) marks) ∷ (codes "app-02", default scaled 0) ∷ []

health-AllWellFormed : AllWellFormed scaled health
unfolding get
health-AllWellFormed id h q = elim (Bool-cases (codes "app-01" == id)) [
  | inl one ↦
      let same : run scaled (default scaled 0) marks ≡ h = ground arith in
      subst (WellFormed scaled) same (
        run-WellFormed scaled scaled-IsIeee (default scaled 0) marks (tt, tt)
          (default-WellFormed scaled scaled-IsIeee 0))
  | inr not_one ↦ elim (Bool-cases (codes "app-02" == id)) [
    | inl two ↦
        let same : default scaled 0 ≡ h = ground arith in
        subst (WellFormed scaled) same (default-WellFormed scaled scaled-IsIeee 0)
    | inr not_two ↦ absurd (ground arith)
  ]
]

-- The tunnel without a failure is chosen.
chosen : choose_best_tunnel scaled tunnels health (codes "app") ≡ some (codes "app-02", 2)
unfolding choose_best_tunnel is_candidate pick_registered sort_by compare_health get run mark
    record_failure default insert_sorted
chosen = refl

choose_best_tunnel-best_example :
    (get (codes "app-02") tunnels ≡ some 2)
    × (is_candidate (codes "app") (codes "app-02") ≡ true)
    × ((j : Text) (other : ℕ)
        → get j tunnels ≡ some other
        → is_candidate (codes "app") j ≡ true
        → Better scaled (get j health) (get (codes "app-02") health)
        → ⊥)
choose_best_tunnel-best_example =
    choose_best_tunnel-best scaled tunnels health (codes "app") scaled-IsIeee health-AllWellFormed
      (codes "app-02") 2 chosen
