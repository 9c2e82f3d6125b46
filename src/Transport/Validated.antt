-- ===== src/Transport/Validated.antt =====
-- What a validated configuration saves the transports from (rathole/src/config.rs:
-- validate_transport_config, with rathole/src/transport and rathole/src/helper.rs).
use rathole_with_proxy.Base.{
  ℕ, ◌≡◌, ◌≢◌, ◌⊎◌, inl, inr, refl, sym, ◌∙◌, ap, subst, Bool, true, false, Option, none, some,
  Text, text_eq, codes, ◌==◌, ==_iff, Bool-cases, arith,
}
use rathole_with_proxy.Config.{TransportType, TransportConfig, TlsConfig, WebsocketConfig, Url}
use rathole_with_proxy.Config.Validate as Validate
use rathole_with_proxy.Config.Validate.{validate_transport_config}
use rathole_with_proxy.Config.Validate.Ready.{validate_transport_config-ok}
use rathole_with_proxy.Transport.{
  Outcome, ok, err, panic, ◌>>=◌, or_err, or_panic, TcpStream, AddrMaybeCached,
}
use rathole_with_proxy.Transport.Address.{host_port_pair}
use rathole_with_proxy.Transport.Helper.{
  Peer, SocketAddr, when, by_scheme, stream_to, tcp_connect_with_proxy,
}
use rathole_with_proxy.Transport.Options.{bind_inverse}
use rathole_with_proxy.Transport.Stacks.{
  Transport, TlsTransport, SubTransport, World, create, create_for, new_tls, new_websocket,
  load_connector, load_acceptor, unless_panic, accept_tls, handshake, new_tcp, connect_tcp,
}

when-panic : {A : Type 0} (b : Bool) (a : A) → when b a ≢ panic
when-panic true a h = cc
when-panic false a h = cc

bind-panic :
    {A B : Type 0} (m : Outcome A) (k : A → Outcome B)
    → m ≢ panic
    → ((a : A) → k a ≢ panic)
    → (m >>= k) ≢ panic
bind-panic (ok a) k h f = f a
bind-panic err k h f = λ q. cc
bind-panic panic k h f = absurd (h refl)

unless_panic-ok : (b c : Bool) → unless_panic b ≡ ok c → c ≡ true
unless_panic-ok true c h = ground arith
unless_panic-ok false c h = absurd cc

module _ (w : World) where
  load_acceptor-some :
      (path password : Option Text) (b : Bool)
      → path ≢ none
      → load_acceptor w.tls path password ≡ ok b
      → b ≡ true
  load_acceptor-some none password b p h = absurd (p refl)
  load_acceptor-some (some path) password b p h =
      let (f, a, h1) = bind_inverse (when w.tls.identity_reads tt) _ b h in
      let (pass, c, h2) = bind_inverse (or_panic password) _ b h1 in
      let (i, d, h3) = bind_inverse (when w.tls.identity_loads tt) _ b h2 in
      unless_panic-ok w.tls.acceptor_made b h3

  accept_tls-acceptor :
      (t : TlsTransport) (s : TcpStream Peer) → t.acceptor ≡ true → accept_tls w t s ≢ panic
  accept_tls-acceptor t s h = rw h (when-panic w.tls.accepts s)

  -- A server with the TLS transport and a validated configuration has the acceptor that its
  -- handshakes unwrap: none of them panics.
  pub handshake-tls :
      (config : TransportConfig) (t : Transport) (s : TcpStream Peer)
      → validate_transport_config config true ≡ Validate.Result.ok tt
      → config.transport_type ≡ TransportType.tls
      → create w config ≡ ok t
      → handshake w t s ≢ panic
  unfolding create new_tls handshake
  handshake-tls config t s valid kind made p =
      let ready = validate_transport_config-ok config true valid in
      let (tls, block, identity) = ready.tls kind in
      let made' : create_for w TransportType.tls config ≡ ok t =
        ap (λ k. create_for w k config) (sym kind) ∙ made in
      let (u, a, h1) = bind_inverse (new_tls w.tls config) _ t made' in
      let (tls', b, h2) = bind_inverse (or_err config.tls) _ u a in
      let (c, d, h3) = bind_inverse (load_connector w.tls tls') _ u h2 in
      let (acceptor, g, h4) =
        bind_inverse (load_acceptor w.tls tls'.pkcs12 tls'.pkcs12_password) _ u h3 in
      let same : tls' ≡ tls = ground arith in
      let has : acceptor ≡ true =
        load_acceptor-some tls'.pkcs12 tls'.pkcs12_password acceptor
          (subst (λ z. z.pkcs12 ≢ none) (sym same) (identity refl).0) g in
      let e : Transport.tls u ≡ t = ground arith in
      let h : u.acceptor ≡ true = ground arith in
      subst (λ z. handshake w z s ≢ panic) e (accept_tls-acceptor u s h) p

  -- A server with the WebSocket transport over TLS whose configuration names no identity passes the
  -- validation and is made, and panics at the first handshake. No proxy is configured and the root
  -- certificate loads.
  pub handshake-websocket :
      (config : TransportConfig) (ws : WebsocketConfig) (tls : TlsConfig) (s : TcpStream Peer)
      → config.transport_type ≡ TransportType.websocket
      → config.websocket ≡ some ws
      → ws.tls ≡ true
      → config.tls ≡ some tls
      → tls.pkcs12 ≡ none
      → config.tcp.proxy ≡ none
      → w.tls.root_loads ≡ true
      → (validate_transport_config config true ≡ Validate.Result.ok tt)
        × ((t : Transport) × (create w config ≡ ok t) × (handshake w t s ≡ panic))
  unfolding validate_transport_config create new_websocket new_tls handshake
  handshake-websocket config ws tls s kind block over block' bare proxy root = (
    ground arith,
    (
      Transport.websocket (record {
        sub = SubTransport.secure (record { tcp = new_tcp config; config = tls; acceptor = false });
      }),
      rw (kind, block, over, block', bare, root) refl,
      refl,
    ),
  )

  stream_to-panic : (new : Peer → TcpStream Peer) (b : Bool) (p : Peer) → stream_to new b p ≢ panic
  stream_to-panic new b p = when-panic b (new p)

  by_scheme-panic :
      (u : Url) (addr : Text)
      → (u.scheme ≡ codes "socks5") ⊎ (u.scheme ≡ codes "http")
      → host_port_pair addr ≢ panic
      → by_scheme w.new_stream w.net u (w.parts u) addr ≢ panic
  by_scheme-panic u addr k h = elim (Bool-cases (u.scheme == codes "socks5")) [
    | inl e ↦
        rw e
          (bind-panic (host_port_pair addr) _ h (λ t. stream_to-panic w.new_stream w.net.tunnels _))
    | inr n ↦ elim (Bool-cases (u.scheme == codes "http")) [
      | inl e ↦
          rw (n, e)
            (bind-panic (host_port_pair addr) _ h
              (λ t. stream_to-panic w.new_stream w.net.tunnels _))
      | inr m ↦
          absurd (ground (arith, ==_iff u.scheme (codes "socks5"), ==_iff u.scheme (codes "http")))
    ]
  ]

  -- With a validated configuration, a connection through a proxy whose URL has a host and a port,
  -- to an address that can be taken apart, does not panic: its scheme is a known one.
  pub connect_tcp-proxy :
      (config : TransportConfig) (is_server : Bool) (u : Url) (addr : AddrMaybeCached SocketAddr)
      (host : Text) (port : ℕ)
      → validate_transport_config config is_server ≡ Validate.Result.ok tt
      → config.tcp.proxy ≡ some u
      → (w.parts u).host_str ≡ some host
      → (w.parts u).port ≡ some port
      → host_port_pair addr.addr ≢ panic
      → connect_tcp w (new_tcp config) addr ≢ panic
  unfolding connect_tcp tcp_connect_with_proxy
  connect_tcp-proxy config is_server u addr host port valid proxy h p safe =
      let ready = validate_transport_config-ok config is_server valid in
      let known = by_scheme-panic u addr.addr (ready.proxy u proxy) safe in
      rw (proxy, h, p)
        (bind-panic _ _
          (bind-panic (when w.net.connects tt) _ (when-panic w.net.connects tt) (λ c. known))
          (λ s q. cc))
