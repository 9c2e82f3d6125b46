-- ===== src/Proxy/Handler.antt =====
-- The handler of every request that has no route of its own (rathole/src/proxy.rs: proxy_handler).
pub mod Sticky
pub mod Routing
use rathole_with_proxy.Base.{
  ℕ, false, Option, none, some, List, [], ◌∷◌, Text, text_eq, codes, Bytes, get, if◌then◌else◌,
}
use rathole_with_proxy.Float.{Float}
use rathole_with_proxy.Health.{is_healthy}
use rathole_with_proxy.Proxy.Http.{Http, Request, Response, Reply, ◌>>=◌}
use rathole_with_proxy.Proxy.Cookie.{split, header_text, get_cookie_value, insert_tunnel_cookie}
use rathole_with_proxy.Proxy.State.{AppState, CloudAnswer, Exchange}
use rathole_with_proxy.Proxy.Choose.{choose_best_tunnel}
use rathole_with_proxy.Proxy.Forward.{forward_via_tunnel, forward_to_cloud}

-- One call of the handler as its surroundings answer it: the exchange with a tunnel, the cloud
-- backend, and the readings of the clock in the two health checks.
pub record Call (h : Http) (f : Float) (F32 S W : Type 0) : Type 1 where
  pub exchange : Exchange f F32 S W
  pub cloud : Text → h.Uri → h.Headers → Bytes → CloudAnswer h
  pub preferred_now : ℕ
  pub chosen_now : ℕ

abbrev pub or_empty : Option Text → Text
or_empty none = []
or_empty (some s) = s

abbrev pub first_or_empty : List Text → Text
first_or_empty [] = []
first_or_empty (p ∷ ps) = p

module _ (h : Http) where
  -- The first label of the Host header.
  unfoldable pub subdomain_of : Request h → Text
  subdomain_of req =
      first_or_empty
        (split b'.' (or_empty (header_text h (h.get_header req.headers (codes "host")))))

module _ (h : Http) (f : Float) {F32 S W : Type 0} where
  -- `forward_via_tunnel(..).await?`, then the cookie of that tunnel.
  unfoldable pub forward_sticky :
      Call h f F32 S W
      → Request h
      → Text
      → S
      → AppState S W f.Carrier
      → AppState S W f.Carrier × Reply (Response h)
  forward_sticky c req id tx s =
      let (t, r) = forward_via_tunnel h f c.exchange id req tx s in
      (t, (r >>= λ resp. insert_tunnel_cookie h resp id))

  -- `forward_to_cloud(..).await?`, then the cookie `cloud`.
  unfoldable pub fall_back :
      Call h f F32 S W
      → Request h
      → AppState S W f.Carrier
      → AppState S W f.Carrier × Reply (Response h)
  fall_back c req s = (
    s,
    (forward_to_cloud h c.cloud s.default_cloud_backend req false >>= λ resp.
        insert_tunnel_cookie h resp (codes "cloud")),
  )

  -- The part of the handler after the check of the preferred tunnel.
  unfoldable pub forward_to_best :
      Call h f F32 S W
      → Request h
      → AppState S W f.Carrier
      → AppState S W f.Carrier × Reply (Response h)
  unfolding forward_sticky fall_back
  forward_to_best c req s =
      elim (choose_best_tunnel f s.tunnels s.health_data (subdomain_of h req)) [
        | some (chosen_id, tx) ↦
            if is_healthy (get chosen_id s.health_data) c.chosen_now
            then forward_sticky c req chosen_id tx s
            else fall_back c req s
        | none ↦ fall_back c req s
      ]

  unfoldable pub proxy_handler :
      Call h f F32 S W
      → Request h
      → AppState S W f.Carrier
      → AppState S W f.Carrier × Reply (Response h)
  unfolding forward_to_best
  proxy_handler c req s = elim (get_cookie_value h req.headers (codes "tunnel")) [
    | none ↦ forward_to_best c req s
    | some pref_id ↦ elim (get pref_id s.tunnels) [
      | some tx ↦
          if is_healthy (get pref_id s.health_data) c.preferred_now
          then forward_sticky c req pref_id tx s
          else forward_to_best c req s
      | none ↦ forward_to_best c req s
    ]
  ]
