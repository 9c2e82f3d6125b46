-- ===== src/Health/Transitions.antt =====
-- The status of a tunnel over the marks that finished requests make (rathole/src/proxy.rs).
use rathole_with_proxy.Base.{
  ℕ, ◌+◌, ◌≤◌, ◌<◌, ◌≡◌, ◌≢◌, ◌⊎◌, inl, inr, text_eq, Option, List, [], ◌∷◌, arith,
}
use rathole_with_proxy.Float.{Float}
use rathole_with_proxy.Health.{
  normal, warning, critical, TunnelHealth, Reads, hysteresis_duration, warning_to_critical_failures,
  success_to_normal, record_success, record_failure,
}

-- A finished request, as its mark on the tunnel.
pub data Mark (F : Type 0) : Type 0 where
  success : Option F → Reads → Mark F
  failure : Reads → Mark F

abbrev pub decided_at : {F : Type 0} → Mark F → ℕ
decided_at (success l t) = t.decided
decided_at (failure t) = t.decided

module _ (f : Float) where
  unfoldable pub mark : TunnelHealth f.Carrier → Mark f.Carrier → TunnelHealth f.Carrier
  mark h (success l t) = record_success f h l t
  mark h (failure t) = record_failure f h t

  unfoldable pub run : TunnelHealth f.Carrier → List (Mark f.Carrier) → TunnelHealth f.Carrier
  run h [] = h
  run h (m ∷ ms) = run (mark h m) ms

  -- The steps of the status that the comments at the thresholds allow.
  pub data Transition (h k : TunnelHealth f.Carrier) : Mark f.Carrier → Type 0 where
    recovers :
        (l : Option f.Carrier) (t : Reads)
        → h.status ≡ warning
        → k.status ≡ normal
        → success_to_normal ≤ k.consecutive_successes
        → Transition h k (success l t)
    warns :
        (t : Reads)
        → h.status ≢ critical
        → k.status ≡ warning
        → k.consecutive_failures < warning_to_critical_failures
        → Transition h k (failure t)
    trips :
        (t : Reads)
        → k.status ≡ critical
        → warning_to_critical_failures ≤ k.consecutive_failures
        → Transition h k (failure t)

  success_cases :
      (h : TunnelHealth f.Carrier) (l : Option f.Carrier) (t : Reads)
      → let k = record_success f h l t in
        ((k.status ≡ h.status) × (k.last_transition ≡ h.last_transition))
        ⊎ ((h.status ≡ warning)
            × (k.status ≡ normal)
            × (success_to_normal ≤ k.consecutive_successes)
            × (k.last_transition ≡ t.decided)
            × (h.last_transition + hysteresis_duration ≤ t.decided))
  unfolding record_success
  success_cases h l t = ground arith

  failure_cases :
      (h : TunnelHealth f.Carrier) (t : Reads)
      → let k = record_failure f h t in
        ((k.status ≡ h.status) × (k.last_transition ≡ h.last_transition))
        ⊎ ((h.status ≢ critical)
            × (k.status ≡ warning)
            × (k.consecutive_failures < warning_to_critical_failures)
            × (k.last_transition ≡ t.decided)
            × (h.last_transition + hysteresis_duration ≤ t.decided))
        ⊎ ((k.status ≡ critical)
            × (warning_to_critical_failures ≤ k.consecutive_failures)
            × (k.last_transition ≡ t.decided)
            × (h.last_transition + hysteresis_duration ≤ t.decided))
  unfolding record_failure
  failure_cases h t = ground arith

  -- A mark either leaves the status and the time of the last transition alone, or makes an
  -- allowed step (from Warning to Normal after three successes, to Warning on fewer than
  -- five failures, to Critical from five failures on), at least ten seconds after the last
  -- transition, and notes its time.
  pub mark-Transition :
      (h : TunnelHealth f.Carrier) (m : Mark f.Carrier)
      → (((mark h m).status ≡ h.status) × ((mark h m).last_transition ≡ h.last_transition))
        ⊎ (Transition h (mark h m) m
            × ((mark h m).last_transition ≡ decided_at m)
            × (h.last_transition + hysteresis_duration ≤ decided_at m))
  unfolding mark
  mark-Transition h (success l t) = elim (success_cases h l t) [
    | inl same ↦ inl same
    | inr (a, b, c, d, e) ↦ inr (recovers l t a b c, d, e)
  ]
  mark-Transition h (failure t) = elim (failure_cases h t) [
    | inl same ↦ inl same
    | inr (inl (a, b, c, d, e)) ↦ inr (warns t a b c, d, e)
    | inr (inr (b, c, d, e)) ↦ inr (trips t b c, d, e)
  ]

  -- The marks alone never bring a tunnel back from Critical.
  pub run-critical :
      (h : TunnelHealth f.Carrier) (ms : List (Mark f.Carrier))
      → h.status ≡ critical
      → (run h ms).status ≡ critical
  unfolding run mark
  run-critical h [] e = e
  run-critical h (success l t ∷ ms) e =
      run-critical (record_success f h l t) ms (ground (arith, success_cases h l t))
  run-critical h (failure t ∷ ms) e =
      run-critical (record_failure f h t) ms (ground (arith, failure_cases h t))
