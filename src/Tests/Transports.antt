-- ===== src/Tests/Transports.antt =====
-- Inputs for rathole/src/transport and rathole/src/helper.rs: libraries that take everything, a new
-- socket, and configurations of three transports.
use rathole_with_proxy.Base.{
  ◌≡◌, ◌≢◌, refl, true, false, none, some, List, [], ◌∷◌, ◌++◌, text_eq, codes, map, arith,
}
use rathole_with_proxy.Config.{
  TransportType, TransportConfig, TlsConfig, WebsocketConfig, Url, default_tcp, default_transport,
}
use rathole_with_proxy.Config.Validate as Validate
use rathole_with_proxy.Config.Validate.{validate_transport_config}
use rathole_with_proxy.Transport.{
  ok, panic, TcpStream, AddrMaybeCached, new_addr, apply, for_control_channel, from_client_cfg,
}
use rathole_with_proxy.Transport.Address.{
  host_port_pair, print_u16, print_digits, host_port_pair-print_u16,
}
use rathole_with_proxy.Transport.Helper.{
  SocketAddr, UdpSocket, Suits, udp_connect, udp_connect-Suits, Peer, tcp_connect_with_proxy,
}
use rathole_with_proxy.Transport.Stacks.{
  Transport, World, create, handshake, new_tcp, new_tls, connect, connect_tcp,
}
use rathole_with_proxy.Transport.Options.{or_default, connect-options}
use rathole_with_proxy.Transport.Validated.{handshake-tls, handshake-websocket, connect_tcp-proxy}
use rathole_with_proxy.Transport.Frames.{
  Incoming, ErrorKind, End, Call, calls, read_all, payload, read_all-calls,
}
use rathole_with_proxy.Tests.Sessions.{web_client}

host_port_pair-print_u16_example :
    host_port_pair (codes "::1" ++ b':' ∷ print_u16 2333) ≡ ok (codes "::1", 2333)
host_port_pair-print_u16_example = host_port_pair-print_u16 (codes "::1") 2333 (omega arith)

abbrev here : SocketAddr
here = SocketAddr.v4 1 80

abbrev there : SocketAddr
there = SocketAddr.v6 2 80

udp_connect-Suits_example :
    (s : UdpSocket) × (udp_connect true (some (here ∷ there ∷ [])) true true ≡ ok s)
    × Suits true (here ∷ there ∷ []) s
udp_connect-Suits_example = udp_connect-Suits true here (there ∷ [])

-- Every URL leads to a proxy at example.org:1080.
abbrev world : World
world = record {
  tls = record {
    root_loads = true;
    identity_reads = true;
    identity_loads = true;
    acceptor_made = true;
    accepts = true;
    connects = true;
  };
  noise = record {
    parses = λ t. true;
    decode = λ t. some t;
    generated = some [];
    builds = true;
    shakes = true;
  };
  net = record { connects = true; tunnels = true };
  parts = λ u. record {
    host_str = some (codes "example.org");
    port = some 1080;
    username = [];
    password = none;
  };
  new_stream = λ p. record { peer = p; nodelay = false; keepalive = none };
  is_url = λ t. true;
  ws_accepts = true;
  ws_connects = true;
}

abbrev address : AddrMaybeCached SocketAddr
address = new_addr (codes "a:1")

abbrev tls : TlsConfig
tls = record {
  hostname = none;
  trusted_root = none;
  pkcs12 = some (codes "id.pfx");
  pkcs12_password = some (codes "pw");
}

abbrev over_tls : TransportConfig
over_tls = record default_transport { transport_type = TransportType.tls; tls = some tls }

abbrev tls_transport : Transport
tls_transport = Transport.tls (record { tcp = new_tcp over_tls; config = tls; acceptor = true })

abbrev raw : TcpStream Peer
raw = record { peer = Peer.direct here; nodelay = false; keepalive = none }

handshake-tls_example : handshake world tls_transport raw ≢ panic
unfolding create new_tls validate_transport_config
handshake-tls_example = handshake-tls world over_tls tls_transport raw refl refl refl

abbrev bare : TlsConfig
bare = record tls { pkcs12 = none; pkcs12_password = none }

abbrev over : WebsocketConfig
over = record { tls = true }

abbrev over_websocket : TransportConfig
over_websocket = record default_transport {
  transport_type = TransportType.websocket;
  tls = some bare;
  websocket = some over;
}

handshake-websocket_example :
    (validate_transport_config over_websocket true ≡ Validate.Result.ok tt)
    × ((t : Transport) × (create world over_websocket ≡ ok t) × (handshake world t raw ≡ panic))
handshake-websocket_example =
    handshake-websocket world over_websocket over bare raw refl refl refl refl refl refl refl

abbrev plain : Transport
plain = Transport.tcp (new_tcp default_transport)

-- A name that the operating system looks up; the socket has the options of the configuration.
abbrev stream : TcpStream Peer
stream = record {
  peer = Peer.by_name (codes "a:1");
  nodelay = true;
  keepalive = some (record { keepalive_secs = 20; keepalive_interval = 8 });
}

connect-options_example :
    (apply for_control_channel stream ≡ record stream {
      nodelay = true;
      keepalive = some (record { keepalive_secs = 20; keepalive_interval = 8 });
    })
    × ((apply (from_client_cfg web_client) stream).nodelay ≡ or_default web_client.nodelay true)
    × ((apply (from_client_cfg web_client) stream).keepalive
        ≡ (apply for_control_channel stream).keepalive)
unfolding create connect connect_tcp tcp_connect_with_proxy apply
connect-options_example =
    connect-options world default_transport plain address stream web_client refl refl

abbrev proxy : Url
proxy = record { scheme = codes "socks5"; rest = codes "//example.org:1080" }

abbrev through_proxy : TransportConfig
through_proxy = record default_transport { tcp = record default_tcp { proxy = some proxy } }

pair : host_port_pair (codes "a:1") ≡ ok (codes "a", 1)
unfolding print_digits
pair = host_port_pair-print_u16 (codes "a") 1 (omega arith)

safe : host_port_pair (codes "a:1") ≢ panic
safe p = let e = pair in cc

connect_tcp-proxy_example : connect_tcp world (new_tcp through_proxy) address ≢ panic
unfolding validate_transport_config
connect_tcp-proxy_example =
    connect_tcp-proxy world through_proxy false proxy address (codes "example.org") 1080 refl refl
      refl refl safe

-- Two writes around a control message.
abbrev calls_made : List Call
calls_made = Call.write (1 ∷ 2 ∷ []) ∷ Call.control (codes "up") ∷ Call.write (3 ∷ []) ∷ []

read_all-calls_example :
    read_all (map Incoming.frame (calls calls_made (record { sent = []; writes = 3 })).sent)
    ≡ payload calls_made
read_all-calls_example = read_all-calls calls_made 3 (omega arith)

last_is_lost : payload calls_made ≡ (1 ∷ 2 ∷ [], End.error ErrorKind.invalid_data)
unfolding payload
last_is_lost = refl
