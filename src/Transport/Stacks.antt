-- ===== src/Transport/Stacks.antt =====
-- How each transport is made from the configuration, and how it connects and accepts
-- (rathole/src/transport: tcp.rs, native_tls.rs, noise.rs, websocket.rs). What the TLS, Noise and
-- WebSocket crates do with a stream is given as outcomes; the stream under them is a `TcpStream`.
use rathole_with_proxy.Base.{Bool, true, false, Option, none, some, Text, Bytes, codes, ◌++◌}
use rathole_with_proxy.Config.{
  TransportType, TransportConfig, TcpConfig, TlsConfig, NoiseConfig, Url,
}
use rathole_with_proxy.Transport.{
  Outcome, ok, panic, ◌>>=◌, or_err, or_panic, SocketOpts, from_cfg, TcpStream, apply,
  AddrMaybeCached,
}
use rathole_with_proxy.Transport.Address.{host_port_pair}
use rathole_with_proxy.Transport.Helper.{
  Peer, SocketAddr, Net, ProxyUrl, when, tcp_connect_with_proxy,
}

pub record TcpTransport : Type 0 where
  pub socket_opts : SocketOpts
  pub cfg : TcpConfig

abbrev pub new_tcp : TransportConfig → TcpTransport
new_tcp config = record { socket_opts = from_cfg config.tcp; cfg = config.tcp }

-- Whether the root certificate loads, whether the file of the identity is read, whether the TLS
-- library takes it and makes an acceptor of it, and whether its handshakes succeed.
pub record Tls : Type 0 where
  pub root_loads : Bool
  pub identity_reads : Bool
  pub identity_loads : Bool
  pub acceptor_made : Bool
  pub accepts : Bool
  pub connects : Bool

-- `acceptor` is whether there is one.
pub record TlsTransport : Type 0 where
  pub tcp : TcpTransport
  pub config : TlsConfig
  pub acceptor : Bool

-- The certificate of `trusted_root`, or the system's.
abbrev pub load_connector : Tls → TlsConfig → Outcome (Unit {0})
load_connector l config = when l.root_loads tt

abbrev pub unless_panic : Bool → Outcome Bool
unless_panic true = ok true
unless_panic false = panic

abbrev pub load_acceptor : Tls → Option Text → Option Text → Outcome Bool
load_acceptor l none password = ok false
load_acceptor l (some path) password = do
  file ← when l.identity_reads tt
  pass ← or_panic password
  identity ← when l.identity_loads tt
  unless_panic l.acceptor_made

unfoldable pub new_tls : Tls → TransportConfig → Outcome TlsTransport
new_tls l config = do
  tls ← or_err config.tls
  connector ← load_connector l tls
  acceptor ← load_acceptor l tls.pkcs12 tls.pkcs12_password
  ok (record { tcp = new_tcp config; config = tls; acceptor = acceptor })

pub record NoiseTransport : Type 0 where
  pub tcp : TcpTransport
  pub config : NoiseConfig
  pub local_private_key : Bytes
  pub remote_public_key : Option Bytes

-- What the crates snowstorm and base64 do.
pub record Noise : Type 0 where
  pub parses : Text → Bool
  pub decode : Text → Option Bytes
  pub generated : Option Bytes
  pub builds : Bool
  pub shakes : Bool

abbrev pub decode_some : Noise → Option Text → Outcome (Option Bytes)
decode_some n none = ok none
decode_some n (some t) = do key ← or_err (n.decode t); ok (some key)

abbrev pub local_key : Noise → Option Text → Outcome Bytes
local_key n none = or_err n.generated
local_key n (some t) = or_err (n.decode t)

unfoldable pub new_noise : Noise → TransportConfig → Outcome NoiseTransport
new_noise n config = do
  noise ← or_err config.noise
  builder ← when (n.parses noise.pattern) tt
  remote ← decode_some n noise.remote_public_key
  key ← local_key n noise.local_private_key
  params ← when (n.parses noise.pattern) tt
  ok (record {
    tcp = new_tcp config;
    config = noise;
    local_private_key = key;
    remote_public_key = remote;
  })

pub data SubTransport : Type 0 where
  secure : TlsTransport → SubTransport
  insecure : TcpTransport → SubTransport

pub record WebsocketTransport : Type 0 where
  pub sub : SubTransport

abbrev pub new_sub : Tls → TransportConfig → (tls : Bool) → Outcome SubTransport
new_sub l config true = do t ← new_tls l config; ok (secure t)
new_sub l config false = ok (insecure (new_tcp config))

unfoldable pub new_websocket : Tls → TransportConfig → Outcome WebsocketTransport
unfolding new_tls
new_websocket l config = do
  wsconfig ← or_err config.websocket
  sub ← new_sub l config wsconfig.tls
  ok (record { sub = sub })

-- What a call meets: the libraries and the network, whether a URL is one, and whether the
-- WebSocket handshakes succeed.
pub record World : Type 0 where
  pub tls : Tls
  pub noise : Noise
  pub net : Net
  pub parts : Url → ProxyUrl
  pub new_stream : Peer → TcpStream Peer
  pub is_url : Text → Bool
  pub ws_accepts : Bool
  pub ws_connects : Bool

-- The transport of a server or client, by `transport_type`.
pub data Transport : Type 0 where
  tcp : TcpTransport → Transport
  tls : TlsTransport → Transport
  noise : NoiseTransport → Transport
  websocket : WebsocketTransport → Transport

module _ (w : World) where
  abbrev pub create_for : TransportType → TransportConfig → Outcome Transport
  create_for TransportType.tcp config = ok (Transport.tcp (new_tcp config))
  create_for TransportType.tls config = do t ← new_tls w.tls config; ok (Transport.tls t)
  create_for TransportType.noise config = do t ← new_noise w.noise config; ok (Transport.noise t)
  create_for TransportType.websocket config = do
    t ← new_websocket w.tls config
    ok (Transport.websocket t)

  -- The match of run_client and run_server, with all features in.
  unfoldable pub create : TransportConfig → Outcome Transport
  unfolding new_tls new_noise new_websocket
  create config = create_for config.transport_type config

  -- `accept` gives the options of the configuration to a new socket.
  abbrev pub accept : TcpTransport → TcpStream Peer → TcpStream Peer
  accept t s = apply t.socket_opts s

  -- The server's side of a handshake. Without an acceptor `unwrap` panics.
  abbrev pub accept_tls : TlsTransport → TcpStream Peer → Outcome (TcpStream Peer)
  accept_tls t s = do acceptor ← unless_panic t.acceptor; when w.tls.accepts s

  abbrev pub accept_sub : SubTransport → TcpStream Peer → Outcome (TcpStream Peer)
  accept_sub (secure t) s = accept_tls t s
  accept_sub (insecure t) s = ok s

  abbrev pub shake_noise : TcpStream Peer → Outcome (TcpStream Peer)
  shake_noise s = do built ← when w.noise.builds tt; when w.noise.shakes s

  unfoldable pub handshake : Transport → TcpStream Peer → Outcome (TcpStream Peer)
  handshake (Transport.tcp t) s = ok s
  handshake (Transport.tls t) s = accept_tls t s
  handshake (Transport.noise t) s = shake_noise s
  handshake (Transport.websocket t) s = do tsream ← accept_sub t.sub s; when w.ws_accepts tsream

  unfoldable pub connect_tcp : TcpTransport → AddrMaybeCached SocketAddr → Outcome (TcpStream Peer)
  unfolding tcp_connect_with_proxy
  connect_tcp t addr = do
    s ← tcp_connect_with_proxy w.parts w.new_stream w.net addr t.cfg.proxy
    ok (apply t.socket_opts s)

  -- `unwrap_or` takes the host of the address apart also where there is a host name.
  unfoldable pub connect_tls : TlsTransport → AddrMaybeCached SocketAddr → Outcome (TcpStream Peer)
  unfolding connect_tcp
  connect_tls t addr = do
    s ← connect_tcp t.tcp addr
    host ← host_port_pair addr.addr
    when w.tls.connects s

  abbrev pub connect_sub : SubTransport → AddrMaybeCached SocketAddr → Outcome (TcpStream Peer)
  connect_sub (secure t) addr = connect_tls t addr
  connect_sub (insecure t) addr = connect_tcp t addr

  abbrev pub or_todo : Bool → TcpStream Peer → Outcome (TcpStream Peer)
  or_todo true s = ok s
  or_todo false s = panic

  -- A WebSocket handshake that fails is `todo!()`.
  unfoldable pub connect : Transport → AddrMaybeCached SocketAddr → Outcome (TcpStream Peer)
  unfolding connect_tcp connect_tls
  connect (Transport.tcp t) addr = connect_tcp t addr
  connect (Transport.tls t) addr = connect_tls t addr
  connect (Transport.noise t) addr = do s ← connect_tcp t.tcp addr; shake_noise s
  connect (Transport.websocket t) addr = do
    url ← unless_panic (w.is_url (codes "ws://" ++ addr.addr))
    tstream ← connect_sub t.sub addr
    or_todo w.ws_connects tstream
