-- ===== src/Proxy/Handler/Sticky.antt =====
-- Which backend serves a request, and the cookie that says so (rathole/src/proxy.rs).
use rathole_with_proxy.Base.{
  ap, sym, ◌≡◌, refl, inl, inr, true, false, none, some, Text, text_eq, codes, get, ==_refl, arith,
  Option-cases, Bool-cases,
}
use rathole_with_proxy.Float.{Float}
use rathole_with_proxy.Health.{is_healthy}
use rathole_with_proxy.Proxy.Http.{Http, Request, Response, Reply, ok, err, panic, ◌>>=◌}
use rathole_with_proxy.Proxy.Cookie.{get_cookie_value, tunnel_cookie, insert_tunnel_cookie}
use rathole_with_proxy.Proxy.State.{AppState}
use rathole_with_proxy.Proxy.Choose.{choose_best_tunnel}
use rathole_with_proxy.Proxy.Forward.{forward_via_tunnel, forward_to_cloud}
use rathole_with_proxy.Proxy.Handler.{
  Call, subdomain_of, forward_sticky, fall_back, forward_to_best, proxy_handler,
}

module _ (h : Http) where
  -- The response sets its one cookie to the tunnel's, as the header type writes it.
  pub record Names (id : Text) (resp : Response h) : Type 0 where
    pub value : h.Value
    pub written : h.from_str (tunnel_cookie h id) ≡ some value
    pub set : h.get_header resp.headers (codes "set-cookie") ≡ some value

  -- The response is another one with the cookie of the tunnel.
  abbrev pub Marked : Text → Response h → Response h → Type 0
  Marked id r resp = Names id resp × (resp.status ≡ r.status) × (resp.body ≡ r.body)

  insert_tunnel_cookie-Marked :
      (resp : Response h) (id : Text) (out : Response h)
      → insert_tunnel_cookie h resp id ≡ ok out
      → Marked id resp out
  unfolding insert_tunnel_cookie
  insert_tunnel_cookie-Marked resp id out e =
      elim (Option-cases (h.from_str (tunnel_cookie h id))) [
        | inl n ↦ absurd (ground arith)
        | inr (v, n) ↦ (
          record {
            value = v;
            written = n;
            set = ground (
              arith,
              h.get-insert resp.headers (codes "set-cookie") (codes "set-cookie") v,
              ==_refl (codes "set-cookie"),
            );
          },
          ground arith,
          ground arith,
        )
      ]

  bind-Marked :
      (r : Reply (Response h)) (id : Text) (out : Response h)
      → (r >>= λ resp. insert_tunnel_cookie h resp id) ≡ ok out
      → (resp : Response h) × (r ≡ ok resp) × Marked id resp out
  bind-Marked (ok resp) id out e = (resp, refl, insert_tunnel_cookie-Marked resp id out e)
  bind-Marked (err c) id out e = absurd (cc)
  bind-Marked panic id out e = absurd (cc)

module _ (h : Http) (f : Float) {F32 S W : Type 0} (c : Call h f F32 S W) (req : Request h)
    (s : AppState S W f.Carrier) where
  -- No tunnel that the cookie asks for may serve.
  abbrev pub NoPreferred : Type 0
  NoPreferred =
      (id : Text) (tx : S)
      → get_cookie_value h req.headers (codes "tunnel") ≡ some id
      → get id s.tunnels ≡ some tx
      → is_healthy (get id s.health_data) c.preferred_now ≡ false

  -- The tunnel of the sender has answered with the response, which leaves the state.
  abbrev pub ByTunnel : Text → S → Response h → AppState S W f.Carrier → Type 0
  ByTunnel id tx r t = forward_via_tunnel h f c.exchange id req tx s ≡ (t, ok r)

  -- Who has served the request, and with which response: the tunnel of its cookie, else the best
  -- tunnel of its subdomain, else the cloud backend.
  pub data Serves (id : Text) (r : Response h) (t : AppState S W f.Carrier) : Type 0 where
    preferred :
        (tx : S)
        → get_cookie_value h req.headers (codes "tunnel") ≡ some id
        → get id s.tunnels ≡ some tx
        → is_healthy (get id s.health_data) c.preferred_now ≡ true
        → ByTunnel id tx r t
        → Serves id r t
    best :
        (tx : S)
        → NoPreferred
        → choose_best_tunnel f s.tunnels s.health_data (subdomain_of h req) ≡ some (id, tx)
        → is_healthy (get id s.health_data) c.chosen_now ≡ true
        → ByTunnel id tx r t
        → Serves id r t
    cloud :
        NoPreferred
        → ((i : Text) (tx : S)
            → choose_best_tunnel f s.tunnels s.health_data (subdomain_of h req) ≡ some (i, tx)
            → is_healthy (get i s.health_data) c.chosen_now ≡ false)
        → id ≡ codes "cloud"
        → forward_to_cloud h c.cloud s.default_cloud_backend req false ≡ ok r
        → t ≡ s
        → Serves id r t

  -- A response is that of its server, with a cookie that names the server.
  abbrev pub Served : AppState S W f.Carrier → Response h → Type 0
  Served t resp = (id : Text) × (r : Response h) × Marked h id r resp × Serves id r t

  forward_sticky-Served :
      (id : Text) (tx : S) (t : AppState S W f.Carrier) (resp : Response h)
      → forward_sticky h f c req id tx s ≡ (t, ok resp)
      → ((r : Response h) → ByTunnel id tx r t → Serves id r t)
      → Served t resp
  unfolding forward_sticky
  forward_sticky-Served id tx t resp e serves =
      let p = forward_via_tunnel h f c.exchange id req tx s in
      let (r, q, m) = bind-Marked h p.1 id resp (ap (λ z. z.1) e) in
      let kept : p.0 ≡ t = ap (λ z. z.0) e in (id, r, m, serves r (ground arith))

  fall_back-Served :
      (t : AppState S W f.Carrier) (resp : Response h)
      → fall_back h f c req s ≡ (t, ok resp)
      → NoPreferred
      → ((i : Text) (tx : S)
          → choose_best_tunnel f s.tunnels s.health_data (subdomain_of h req) ≡ some (i, tx)
          → is_healthy (get i s.health_data) c.chosen_now ≡ false)
      → Served t resp
  unfolding fall_back
  fall_back-Served t resp e np ill =
      let (r, q, m) =
        bind-Marked h (forward_to_cloud h c.cloud s.default_cloud_backend req false) _ resp
          (ap (λ z. z.1) e) in
      (codes "cloud", r, m, cloud np ill refl q (ap (λ z. z.0) (sym e)))

  forward_to_best-Served :
      NoPreferred
      → (t : AppState S W f.Carrier) (resp : Response h)
      → forward_to_best h f c req s ≡ (t, ok resp)
      → Served t resp
  unfolding forward_to_best
  forward_to_best-Served np t resp e =
      elim (Option-cases (choose_best_tunnel f s.tunnels s.health_data (subdomain_of h req))) [
        | inl n ↦ fall_back-Served t resp (ground arith) np (λ i tx q. absurd (ground arith))
        | inr ((id, tx), n) ↦ elim (Bool-cases (is_healthy (get id s.health_data) c.chosen_now)) [
          | inl fine ↦ forward_sticky-Served id tx t resp (ground arith) (λ r. best tx np n fine)
          | inr ill ↦ fall_back-Served t resp (ground arith) np (λ i other q. ground arith)
        ]
      ]

  -- A request that succeeds has been answered by the tunnel of its cookie if that one is registered
  -- and healthy, else by the best tunnel of the subdomain if that one is healthy, else by the
  -- cloud. The response has the status and the body of that answer, its cookie names who has
  -- answered, and the state is what the exchange with the tunnel leaves, or unchanged after the
  -- cloud.
  pub proxy_handler-Served :
      (t : AppState S W f.Carrier) (resp : Response h)
      → proxy_handler h f c req s ≡ (t, ok resp)
      → Served t resp
  unfolding proxy_handler
  proxy_handler-Served t resp e =
      elim (Option-cases (get_cookie_value h req.headers (codes "tunnel"))) [
        | inl n ↦ forward_to_best-Served (λ id tx q _. absurd (ground arith)) t resp (ground arith)
        | inr (p, n) ↦ elim (Option-cases (get p s.tunnels)) [
          | inl m ↦
              forward_to_best-Served (λ id tx q r. absurd (ground arith)) t resp (ground arith)
          | inr (tx, m) ↦ elim (Bool-cases (is_healthy (get p s.health_data) c.preferred_now)) [
            | inl fine ↦
                forward_sticky-Served p tx t resp (ground arith) (λ r. preferred tx n m fine)
            | inr ill ↦ forward_to_best-Served (λ id other q r. ground arith) t resp (ground arith)
          ]
        ]
      ]

  -- A cookie that asks for `cloud`, where no tunnel has that name, is as good as no cookie: a
  -- healthy best tunnel of the subdomain serves the request, and not the cloud.
  pub proxy_handler-cloud_cookie :
      (id : Text) (tx : S)
      → get_cookie_value h req.headers (codes "tunnel") ≡ some (codes "cloud")
      → get (codes "cloud") s.tunnels ≡ none
      → choose_best_tunnel f s.tunnels s.health_data (subdomain_of h req) ≡ some (id, tx)
      → is_healthy (get id s.health_data) c.chosen_now ≡ true
      → proxy_handler h f c req s ≡ forward_sticky h f c req id tx s
  unfolding proxy_handler
  proxy_handler-cloud_cookie id tx n m b fine = ground arith
