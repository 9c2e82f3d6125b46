-- ===== src/Tests/Health.antt =====
-- Inputs for the health records of rathole/src/proxy.rs.
use rathole_with_proxy.Base.{ℕ, ◌+◌, ◌≤◌, ◌≡◌, ◌⊎◌, none, List, [], ◌∷◌, text_eq}
use rathole_with_proxy.Float.Scaled.{scaled, scaled-IsIeee}
use rathole_with_proxy.Health.{
  HealthStatus, warning, TunnelHealth, Reads, hysteresis_duration, secs, default,
}
use rathole_with_proxy.Health.Transitions.{Mark, failure, mark, run, Transition, mark-Transition}
use rathole_with_proxy.Health.Rates.{WellFormed, run-WellFormed, default-WellFormed}

abbrev at : ℕ → Reads
at n = record { created = secs n; updated = secs n; recorded = secs n; decided = secs n }

-- A tunnel that has been in one status for a minute.
abbrev tunnel_in : HealthStatus → TunnelHealth ℕ
tunnel_in status = record {
  status = status;
  last_update = secs 60;
  last_success = none;
  last_failure = none;
  consecutive_successes = 0;
  consecutive_failures = 4;
  avg_latency_ms = none;
  error_rate = 0;
  last_transition = 0;
}

abbrev failures : List (Mark ℕ)
failures = failure (at 70) ∷ failure (at 85) ∷ []

mark-Transition_example :
    ((mark scaled (tunnel_in warning) (failure (at 70))).status ≡ warning)
      × ((mark scaled (tunnel_in warning) (failure (at 70))).last_transition ≡ 0)
    ⊎ (Transition scaled
          (tunnel_in warning)
          (mark scaled (tunnel_in warning) (failure (at 70)))
          (failure (at 70))
        × ((mark scaled (tunnel_in warning) (failure (at 70))).last_transition ≡ secs 70)
        × (0 + hysteresis_duration ≤ secs 70))
mark-Transition_example = mark-Transition scaled (tunnel_in warning) (failure (at 70))

run-WellFormed_example : WellFormed scaled (run scaled (default scaled 0) failures)
run-WellFormed_example =
    run-WellFormed scaled scaled-IsIeee (default scaled 0) failures (tt, (tt, tt))
      (default-WellFormed scaled scaled-IsIeee 0)
