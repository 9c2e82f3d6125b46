-- ===== src/Proxy/Handler/Routing.antt =====
-- The check of the preferred tunnel in the handler, against decide_routing, which has the same purpose
-- and no caller (rathole/src/proxy.rs).
use rathole_with_proxy.Base.{
  ◌≡◌, ◌≢◌, ◌⊎◌, inl, inr, refl, some, Text, text_eq, codes, get, arith, Bool-cases, if◌then◌else◌,
}
use rathole_with_proxy.Float.{Float}
use rathole_with_proxy.Health.{stale_threshold, is_healthy, decide_routing, force_cloud}
use rathole_with_proxy.Health.Marks.{age, is_healthy-decide_routing}
use rathole_with_proxy.Proxy.Http.{Http, Request}
use rathole_with_proxy.Proxy.Cookie.{get_cookie_value}
use rathole_with_proxy.Proxy.State.{AppState}
use rathole_with_proxy.Proxy.Handler.{Call, forward_sticky, forward_to_best, proxy_handler}

module _ (h : Http) (f : Float) {F32 S W : Type 0} (c : Call h f F32 S W) (req : Request h)
    (s : AppState S W f.Carrier) where
  preferred :
      (id : Text) (tx : S)
      → get_cookie_value h req.headers (codes "tunnel") ≡ some id
      → get id s.tunnels ≡ some tx
      → proxy_handler h f c req s ≡ (
          if is_healthy (get id s.health_data) c.preferred_now
          then forward_sticky h f c req id tx s
          else forward_to_best h f c req s)
  unfolding proxy_handler
  preferred id tx asked there = ground arith

  -- A registered tunnel that the cookie asks for gets the request where decide_routing does not
  -- force the cloud, and where it does the best tunnel is looked for; but of a record that is
  -- exactly thirty seconds old the handler takes the second way, whatever decide_routing says.
  pub proxy_handler-decide_routing :
      (id : Text) (tx : S)
      → get_cookie_value h req.headers (codes "tunnel") ≡ some id
      → get id s.tunnels ≡ some tx
      → let decision = decide_routing id s.health_data c.preferred_now in
        let old = age (get id s.health_data) c.preferred_now in
        (decision ≢ force_cloud
          → old ≢ some stale_threshold
          → proxy_handler h f c req s ≡ forward_sticky h f c req id tx s)
        × ((decision ≡ force_cloud) ⊎ (old ≡ some stale_threshold)
            → proxy_handler h f c req s ≡ forward_to_best h f c req s)
  proxy_handler-decide_routing id tx asked there =
      let step = preferred id tx asked there in
      let (to, from) = is_healthy-decide_routing id s.health_data c.preferred_now in
      (
        λ free other. rw step (rw (from (free, other)) refl),
        λ bad. elim (Bool-cases (is_healthy (get id s.health_data) c.preferred_now)) [
          | inl fine ↦
              absurd (elim bad [ inl forced ↦ (to fine).0 forced | inr exact ↦ (to fine).1 exact ])
          | inr ill ↦ rw step (rw ill refl)
        ],
      )
