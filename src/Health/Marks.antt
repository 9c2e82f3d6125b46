-- ===== src/Health/Marks.antt =====
-- The map of the tunnels' health under marks for many tunnels, and the two readings of the map that
-- rathole/src/proxy.rs has: the check in proxy_handler and decide_routing.
use rathole_with_proxy.Base.{
  ℕ, ◌+◌, ◌<◌, ◌≡◌, ◌≢◌, ◌↔◌, inl, inr, Option, none, some, List, [], ◌∷◌, Text, text_eq,
  text_eqb_iff, HashMap, get, get-insert, ◌==◌, ==_refl, arith, Bool-cases, true, if◌then◌else◌,
}
use rathole_with_proxy.Float.{Float}
use rathole_with_proxy.Health.{
  normal, TunnelHealth, Reads, hysteresis_duration, stale_threshold, duration_since, default,
  record_failure, entry_or_default, mark_tunnel_success, mark_tunnel_failure, is_healthy,
  decide_routing, force_cloud,
}
use rathole_with_proxy.Health.Transitions.{Mark, success, failure, mark, run}

module _ (f : Float) where
  mark_tunnel :
      HashMap Text (TunnelHealth f.Carrier)
      → Text
      → Mark f.Carrier
      → HashMap Text (TunnelHealth f.Carrier)
  mark_tunnel m id (success l t) = mark_tunnel_success f m id l t
  mark_tunnel m id (failure t) = mark_tunnel_failure f m id t

  pub mark_all :
      HashMap Text (TunnelHealth f.Carrier)
      → List (Text × Mark f.Carrier)
      → HashMap Text (TunnelHealth f.Carrier)
  unfolding mark_tunnel
  mark_all m [] = m
  mark_all m ((id, k) ∷ ks) = mark_all (mark_tunnel m id k) ks

  -- The marks for one tunnel, in order.
  pub marks_of : Text → List (Text × Mark f.Carrier) → List (Mark f.Carrier)
  marks_of id [] = []
  marks_of id ((j, k) ∷ ks) = let rest = marks_of id ks in if j == id then k ∷ rest else rest

  get-mark_tunnel :
      (m : HashMap Text (TunnelHealth f.Carrier)) (j id : Text) (k : Mark f.Carrier)
      → (h : TunnelHealth f.Carrier) → get id m ≡ some h
      → get id (mark_tunnel m j k) ≡ some (if j == id then mark f h k else h)
  unfolding mark_tunnel mark_tunnel_success mark_tunnel_failure mark entry_or_default
  get-mark_tunnel m j id (success l t) h e = rw get-insert (ground (arith, text_eqb_iff j id))
  get-mark_tunnel m j id (failure t) h e = rw get-insert (ground (arith, text_eqb_iff j id))

  -- Requests over other tunnels leave a tunnel's record alone: a tunnel that has a record
  -- has in the end the record that its own marks make of it.
  pub get-mark_all :
      (m : HashMap Text (TunnelHealth f.Carrier)) (ks : List (Text × Mark f.Carrier)) (id : Text)
      → (h : TunnelHealth f.Carrier) → get id m ≡ some h
      → get id (mark_all m ks) ≡ some (run f h (marks_of id ks))
  unfolding mark_all marks_of run
  get-mark_all m [] id h e = e
  get-mark_all m ((j, k) ∷ ks) id h e = elim (Bool-cases (j == id)) [
    | inl own ↦ rw own (
        get-mark_all (mark_tunnel m j k) ks id (mark f h k)
          (rw own at (get-mark_tunnel m j id k h e)))
    | inr other ↦
        rw other
          (get-mark_all (mark_tunnel m j k) ks id h (rw other at (get-mark_tunnel m j id k h e)))
  ]

  -- The first failure of a tunnel without a record creates the record and counts, and leaves the
  -- status Normal unless ten seconds pass inside the call.
  pub first_failure :
      (m : HashMap Text (TunnelHealth f.Carrier)) (id : Text) (t : Reads)
      → get id m ≡ none
      → t.decided < t.created + hysteresis_duration
      → (h : TunnelHealth f.Carrier) × (get id (mark_tunnel_failure f m id t) ≡ some h)
        × (h.status ≡ normal)
        × (h.consecutive_failures ≡ 1)
  unfolding mark_tunnel_failure record_failure default entry_or_default
  first_failure m id t e late = (
    record_failure f (default f t.created) t,
    rw (get-insert, ==_refl id) (ground arith),
    ground arith,
    ground arith,
  )

module _ {F : Type 0} where
  -- How long ago the record was last updated.
  abbrev pub age : Option (TunnelHealth F) → ℕ → Option ℕ
  age none now = none
  age (some h) now = some (duration_since now h.last_update)

  -- The two readings of the health data agree but for a record that is exactly thirty seconds old.
  pub is_healthy-decide_routing :
      (id : Text) (m : HashMap Text (TunnelHealth F)) (now : ℕ)
      → (is_healthy (get id m) now ≡ true)
        ↔ ((decide_routing id m now ≢ force_cloud) × (age (get id m) now ≢ some stale_threshold))
  unfolding is_healthy decide_routing
  is_healthy-decide_routing id m now = ((λ h. (ground arith, ground arith)), (λ h. ground arith))
