-- ===== src/Transport/Helper.antt =====
-- Connections (rathole/src/helper.rs: to_socket_addr, udp_connect, tcp_connect_with_proxy). What the
-- network does is an argument; the crate url is a parameter.
use rathole_with_proxy.Base.{
  ℕ, ◌≡◌, ◌⊎◌, refl, sym, not, ◌||◌, inl, inr, Bool, true, false, Option, none, some, List, [], ◌∷◌,
  Text, text_eq, codes, ◌==◌, if◌then◌else◌, In, All,
}
use rathole_with_proxy.Config.{Url}
use rathole_with_proxy.Transport.{
  Outcome, ok, err, panic, ◌>>=◌, or_err, or_panic, AddrMaybeCached, TcpStream,
}
use rathole_with_proxy.Transport.Address.{host_port_pair}

pub data SocketAddr : Type 0 where
  v4 v6 : (ip port : ℕ) → SocketAddr

-- The wildcard address of a family.
pub data BindAddr : Type 0 where
  any_v4 any_v6 : BindAddr

pub record UdpSocket : Type 0 where
  pub bound : BindAddr
  pub peer : SocketAddr

abbrev pub head : List SocketAddr → Option SocketAddr
head [] = none
head (a ∷ rest) = some a

-- `to_socket_addr` on what the lookup gives.
abbrev pub to_socket_addr : Option (List SocketAddr) → Outcome SocketAddr
to_socket_addr found = do all ← or_err found; or_err (head all)

abbrev pub family : SocketAddr → BindAddr
family (v4 ip port) = any_v4
family (v6 ip port) = any_v6

-- `find(|x| x.is_ipv6())` and `find(|x| x.is_ipv4())`
unfoldable pub find_v6 : List SocketAddr → Option SocketAddr
find_v6 [] = none
find_v6 (v6 ip port ∷ rest) = some (v6 ip port)
find_v6 (v4 ip port ∷ rest) = find_v6 rest

unfoldable pub find_v4 : List SocketAddr → Option SocketAddr
find_v4 [] = none
find_v4 (v4 ip port ∷ rest) = some (v4 ip port)
find_v4 (v6 ip port ∷ rest) = find_v4 rest

abbrev pub fall_back : Option SocketAddr → Outcome (SocketAddr × BindAddr)
fall_back none = err
fall_back (some a) = ok (a, any_v4)

abbrev pub prefer_v6 : List SocketAddr → Option SocketAddr → Outcome (SocketAddr × BindAddr)
prefer_v6 all none = fall_back (find_v4 all)
prefer_v6 all (some a) = ok (a, any_v6)

abbrev pub choose_addr :
    (prefer_ipv6 : Bool) → Option (List SocketAddr) → Outcome (SocketAddr × BindAddr)
choose_addr false found = do a ← to_socket_addr found; ok (a, family a)
choose_addr true found = do all ← or_err found; prefer_v6 all (find_v6 all)

-- `bound` and `connected` are whether the socket could be bound and connected.
unfoldable pub udp_connect :
    (prefer_ipv6 : Bool) → Option (List SocketAddr) → (bound connected : Bool) → Outcome UdpSocket
unfolding find_v6 find_v4
udp_connect prefer_ipv6 found bound connected = do
  chosen ← choose_addr prefer_ipv6 found
  if bound
      then (if connected then ok (record { bound = chosen.1; peer = chosen.0 }) else err)
      else err

abbrev pub IsV4 : SocketAddr → Type 0
IsV4 a = family a ≡ any_v4

find_v6-cases :
    (all : List SocketAddr)
    → ((b : SocketAddr) × (find_v6 all ≡ some b) × In b all × (family b ≡ any_v6))
      ⊎ ((find_v6 all ≡ none) × All IsV4 all)
unfolding find_v6
find_v6-cases [] = inr (refl, tt)
find_v6-cases (v6 ip port ∷ rest) = inl (v6 ip port, refl, inl refl, refl)
find_v6-cases (v4 ip port ∷ rest) = elim (find_v6-cases rest) [
  | inl (b, q, i, f) ↦ inl (b, q, inr i, f)
  | inr (q, all) ↦ inr (q, (refl, all))
]

find_v4-head : (a : SocketAddr) (rest : List SocketAddr) → IsV4 a → find_v4 (a ∷ rest) ≡ some a
unfolding find_v4
find_v4-head (v4 ip port) rest h = refl
find_v4-head (v6 ip port) rest h = absurd cc

-- The socket is bound to the family of its peer, which is one of the addresses; with a preference
-- for IPv6 it is an IPv4 address only where all are.
abbrev pub Suits : (prefer_ipv6 : Bool) → List SocketAddr → UdpSocket → Type 0
Suits prefer_ipv6 all s =
    In s.peer all × (s.bound ≡ family s.peer) × (prefer_ipv6 ≡ true → IsV4 s.peer → All IsV4 all)

-- With at least one address, a UDP socket that can be bound and connected gets a peer among the
-- addresses, is bound to the family of the peer, and where IPv6 is preferred its peer is an IPv4
-- address only if every address is.
pub udp_connect-Suits :
    (prefer_ipv6 : Bool) (a : SocketAddr) (rest : List SocketAddr)
    → (s : UdpSocket) × (udp_connect prefer_ipv6 (some (a ∷ rest)) true true ≡ ok s)
      × Suits prefer_ipv6 (a ∷ rest) s
unfolding udp_connect
udp_connect-Suits false a rest =
    (record { bound = family a; peer = a }, refl, (inl refl, refl, (λ p q. absurd cc)))
udp_connect-Suits true a rest = elim (find_v6-cases (a ∷ rest)) [
  | inl (b, q, i, f) ↦
      (record { bound = any_v6; peer = b }, rw q refl, (i, sym f, (λ p z. absurd cc)))
  | inr (q, all) ↦ (
    record { bound = any_v4; peer = a },
    rw (q, find_v4-head a rest all.0) refl,
    (inl refl, sym all.0, (λ p z. all)),
  )
]

-- What a URL says of a proxy.
pub record ProxyUrl : Type 0 where
  pub host_str : Option Text
  pub port : Option ℕ
  pub username : Text
  pub password : Option Text

-- The other end of a TCP stream: an address, a name, or a proxy that tunnels to host and port with
-- a name and a password.
pub data Peer : Type 0 where
  direct : SocketAddr → Peer
  by_name : Text → Peer
  by_socks5 by_http : (target : Text × ℕ) (auth : Option (Text × Text)) → Peer

-- Whether TcpStream::connect and the handshake with a proxy succeed.
pub record Net : Type 0 where
  pub connects : Bool
  pub tunnels : Bool

abbrev pub text_or_empty : Option Text → Text
text_or_empty none = []
text_or_empty (some s) = s

abbrev pub is_some : Option Text → Bool
is_some none = false
is_some (some s) = true

abbrev pub auth_of : ProxyUrl → Option (Text × Text)
auth_of u =
    if not (u.username == []) || is_some u.password
    then some (u.username, text_or_empty u.password)
    else none

abbrev pub when : {A : Type 0} → Bool → A → Outcome A
when true a = ok a
when false a = err

-- `new` are the options of a new socket.
abbrev pub stream_to : (Peer → TcpStream Peer) → Bool → Peer → Outcome (TcpStream Peer)
stream_to new connects p = when connects (new p)

abbrev pub by_scheme :
    (Peer → TcpStream Peer) → Net → Url → ProxyUrl → Text → Outcome (TcpStream Peer)
by_scheme new net url u addr =
    if url.scheme == codes "socks5"
    then (do target ← host_port_pair addr; stream_to new net.tunnels (by_socks5 target (auth_of u)))
    else if url.scheme == codes "http"
    then (do target ← host_port_pair addr; stream_to new net.tunnels (by_http target (auth_of u)))
    else panic

unfoldable pub tcp_connect_with_proxy :
    (Url → ProxyUrl)
    → (Peer → TcpStream Peer)
    → Net
    → AddrMaybeCached SocketAddr
    → Option Url
    → Outcome (TcpStream Peer)
tcp_connect_with_proxy parts new net addr (some url) = do
  host ← or_panic (parts url).host_str
  port ← or_panic (parts url).port
  connected ← when net.connects tt
  by_scheme new net url (parts url) addr.addr
tcp_connect_with_proxy parts new net addr none = elim addr.socket_addr [
  | some s ↦ stream_to new net.connects (direct s)
  | none ↦ stream_to new net.connects (by_name addr.addr)
]
