-- ===== src/Transport/Options.antt =====
-- The options of the sockets under the transports (rathole/src/transport/mod.rs: SocketOpts, and
-- Transport::hint of the four transports).
use rathole_with_proxy.Base.{
  ◌≡◌, refl, sym, ◌∙◌, ap, subst, Bool, true, false, Option, none, some, codes, ◌++◌, arith,
}
use rathole_with_proxy.Config.{TransportType, TransportConfig, ClientServiceConfig}
use rathole_with_proxy.Transport.{
  Outcome, ok, err, panic, ◌>>=◌, or_err, from_cfg, from_client_cfg, for_control_channel, TcpStream,
  apply, AddrMaybeCached,
}
use rathole_with_proxy.Transport.Address.{host_port_pair}
use rathole_with_proxy.Transport.Helper.{Peer, SocketAddr, when, tcp_connect_with_proxy}
use rathole_with_proxy.Transport.Stacks.{
  TcpTransport, TlsTransport, SubTransport, NoiseTransport, Transport, World, new_tcp, new_tls,
  new_noise, new_websocket, new_sub, load_acceptor, load_connector, unless_panic, create,
  create_for, connect_tcp, connect_tls, connect_sub, connect, or_todo, decode_some, local_key,
}

pub bind_inverse :
    {A B : Type 0} (m : Outcome A) (k : A → Outcome B) (b : B)
    → (m >>= k) ≡ ok b
    → (a : A) × (m ≡ ok a) × (k a ≡ ok b)
bind_inverse (ok a) k b h = (a, refl, h)
bind_inverse err k b h = absurd cc
bind_inverse panic k b h = absurd cc

when-ok : {A : Type 0} (c : Bool) (a b : A) → when c a ≡ ok b → b ≡ a
when-ok true a b h = ground arith
when-ok false a b h = absurd cc

abbrev sub_tcp : SubTransport → TcpTransport
sub_tcp (SubTransport.secure t) = t.tcp
sub_tcp (SubTransport.insecure t) = t

abbrev pub tcp_of : Transport → TcpTransport
tcp_of (Transport.tcp t) = t
tcp_of (Transport.tls t) = t.tcp
tcp_of (Transport.noise t) = t.tcp
tcp_of (Transport.websocket t) = sub_tcp t.sub

abbrev pub or_default : Option Bool → Bool → Bool
or_default none b = b
or_default (some a) b = a

module _ (w : World) where
  new_tls-tcp :
      (config : TransportConfig) (t : TlsTransport)
      → new_tls w.tls config ≡ ok t
      → t.tcp ≡ new_tcp config
  unfolding new_tls
  new_tls-tcp config t h =
      let (tls, a, h1) = bind_inverse (or_err config.tls) _ t h in
      let (u, b, h2) = bind_inverse (load_connector w.tls tls) _ t h1 in
      let (c, d, h3) = bind_inverse (load_acceptor w.tls tls.pkcs12 tls.pkcs12_password) _ t h2 in
      ground arith

  -- Each transport has the options of the configuration.
  abbrev Configured : TransportConfig → Transport → Type 0
  Configured config t = tcp_of t ≡ new_tcp config

  new_noise-tcp :
      (config : TransportConfig) (t : NoiseTransport)
      → new_noise w.noise config ≡ ok t
      → t.tcp ≡ new_tcp config
  unfolding new_noise
  new_noise-tcp config t h =
      let (noise, a, h1) = bind_inverse (or_err config.noise) _ t h in
      let (u, b, h2) = bind_inverse (when (w.noise.parses noise.pattern) tt) _ t h1 in
      let (r, c, h3) = bind_inverse (decode_some w.noise noise.remote_public_key) _ t h2 in
      let (k, d, h4) = bind_inverse (local_key w.noise noise.local_private_key) _ t h3 in
      let (p, e, h5) = bind_inverse (when (w.noise.parses noise.pattern) tt) _ t h4 in ground arith

  new_sub-tcp :
      (config : TransportConfig) (b : Bool) (s : SubTransport)
      → new_sub w.tls config b ≡ ok s
      → sub_tcp s ≡ new_tcp config
  new_sub-tcp config true s h =
      let (t, a, h1) = bind_inverse (new_tls w.tls config) _ s h in
      let e : SubTransport.secure t ≡ s = ground arith in
      subst (λ z. sub_tcp z ≡ new_tcp config) e (new_tls-tcp config t a)
  new_sub-tcp config false s h =
      let e : SubTransport.insecure (new_tcp config) ≡ s = ground arith in
      subst (λ z. sub_tcp z ≡ new_tcp config) e refl

  create_for-Configured :
      (c : TransportType) (config : TransportConfig) (t : Transport)
      → create_for w c config ≡ ok t
      → Configured config t
  unfolding new_websocket
  create_for-Configured TransportType.tcp config t h =
      let e : Transport.tcp (new_tcp config) ≡ t = ground arith in subst (Configured config) e refl
  create_for-Configured TransportType.tls config t h =
      let (u, a, h1) = bind_inverse (new_tls w.tls config) _ t h in
      let e : Transport.tls u ≡ t = ground arith in
      subst (Configured config) e (new_tls-tcp config u a)
  create_for-Configured TransportType.noise config t h =
      let (u, a, h1) = bind_inverse (new_noise w.noise config) _ t h in
      let e : Transport.noise u ≡ t = ground arith in
      subst (Configured config) e (new_noise-tcp config u a)
  create_for-Configured TransportType.websocket config t h =
      let (u, a, h1) = bind_inverse (new_websocket w.tls config) _ t h in
      let (ws, b, h2) = bind_inverse (or_err config.websocket) _ u a in
      let (s, c, h3) = bind_inverse (new_sub w.tls config ws.tls) _ u h2 in
      let e : Transport.websocket (record { sub = s }) ≡ t = ground arith in
      subst (Configured config) e (new_sub-tcp config ws.tls s c)

  -- The stream has got the options of a TCP transport.
  abbrev Applied : TcpTransport → TcpStream Peer → Type 0
  Applied t s = (new : TcpStream Peer) × (s ≡ apply t.socket_opts new)

  connect_tcp-Applied :
      (t : TcpTransport) (addr : AddrMaybeCached SocketAddr) (s : TcpStream Peer)
      → connect_tcp w t addr ≡ ok s
      → Applied t s
  unfolding connect_tcp
  connect_tcp-Applied t addr s h =
      let (new, a, h1) =
        bind_inverse (tcp_connect_with_proxy w.parts w.new_stream w.net addr t.cfg.proxy) _ s h in
      (new, ground arith)

  connect_tls-Applied :
      (t : TlsTransport) (addr : AddrMaybeCached SocketAddr) (s : TcpStream Peer)
      → connect_tls w t addr ≡ ok s
      → Applied t.tcp s
  unfolding connect_tls
  connect_tls-Applied t addr s h =
      let (u, a, h1) = bind_inverse (connect_tcp w t.tcp addr) _ s h in
      let (p, b, h2) = bind_inverse (host_port_pair addr.addr) _ s h1 in
      subst (Applied t.tcp) (sym (when-ok w.tls.connects u s h2))
        (connect_tcp-Applied t.tcp addr u a)

  connect_sub-Applied :
      (t : SubTransport) (addr : AddrMaybeCached SocketAddr) (s : TcpStream Peer)
      → connect_sub w t addr ≡ ok s
      → Applied (sub_tcp t) s
  connect_sub-Applied (SubTransport.secure t) addr s h = connect_tls-Applied t addr s h
  connect_sub-Applied (SubTransport.insecure t) addr s h = connect_tcp-Applied t addr s h

  or_todo-ok : (b : Bool) (u s : TcpStream Peer) → or_todo w b u ≡ ok s → u ≡ s
  or_todo-ok true u s h = ground arith
  or_todo-ok false u s h = absurd cc

  connect-Applied :
      (t : Transport) (addr : AddrMaybeCached SocketAddr) (s : TcpStream Peer)
      → connect w t addr ≡ ok s
      → Applied (tcp_of t) s
  unfolding connect
  connect-Applied (Transport.tcp t) addr s h = connect_tcp-Applied t addr s h
  connect-Applied (Transport.tls t) addr s h = connect_tls-Applied t addr s h
  connect-Applied (Transport.noise t) addr s h =
      let (u, a, h1) = bind_inverse (connect_tcp w t.tcp addr) _ s h in
      let (b, c, h2) = bind_inverse (when w.noise.builds tt) _ s h1 in
      subst (Applied t.tcp) (sym (when-ok w.noise.shakes u s h2))
        (connect_tcp-Applied t.tcp addr u a)
  connect-Applied (Transport.websocket t) addr s h =
      let (b, c, h1) = bind_inverse (unless_panic (w.is_url (codes "ws://" ++ addr.addr))) _ s h in
      let (u, a, h2) = bind_inverse (connect_sub w t.sub addr) _ s h1 in
      subst (Applied (sub_tcp t.sub)) (or_todo-ok w.ws_connects u s h2)
        (connect_sub-Applied t.sub addr u a)

  -- A connection of a client, over any transport, has the options of the configuration. As a control
  -- channel it never delays and keeps the keepalive; as a data channel it delays as its service
  -- says, else as the configuration says. The socket takes its options.
  pub connect-options :
      (config : TransportConfig) (t : Transport) (addr : AddrMaybeCached SocketAddr)
      (s : TcpStream Peer) (service : ClientServiceConfig)
      → create w config ≡ ok t
      → connect w t addr ≡ ok s
      → (apply for_control_channel s ≡ record s {
        nodelay = true;
        keepalive = some (record {
          keepalive_secs = config.tcp.keepalive_secs;
          keepalive_interval = config.tcp.keepalive_interval;
        });
      })
        × ((apply (from_client_cfg service) s).nodelay
            ≡ or_default service.nodelay config.tcp.nodelay)
        × ((apply (from_client_cfg service) s).keepalive ≡ (apply for_control_channel s).keepalive)
  unfolding create apply
  connect-options config t addr s service h c =
      let (new, e) = connect-Applied t addr s c in
      let d = create_for-Configured config.transport_type config t h in
      let e' : s ≡ apply (from_cfg config.tcp) new =
        e ∙ ap (λ (z : TcpTransport). apply z.socket_opts new) d in
      (ground (arith, e'), ground (arith, e'), ground (arith, e'))
