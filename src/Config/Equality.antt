-- ===== src/Config/Equality.antt =====
-- The equality that `#[derive(PartialEq)]` gives the records of rathole/src/config.rs: field by
-- field, and for a `HashMap` by its entries. A record is compared as the tuple of its fields.
mod Classes
pub use Classes.*
use rathole_with_proxy.Base.{
  ℕ, Bool, true, false, ◌&&◌, Option, none, some, List, [], ◌∷◌, ◌≡◌, refl, Eq, ◌==◌, ==_iff, eqb,
  nat_eq, not, ap, sym, ◌∙◌, ◌↔◌, Text, text_eq, HashMap, get, length, arith,
}
use rathole_with_proxy.Config.{
  TransportType, ServiceType, ClientServiceConfig, ServerServiceConfig, TlsConfig, NoiseConfig,
  WebsocketConfig, Url, TcpConfig, TransportConfig, ClientConfig, ServerConfig, Config,
}

abbrev service_type_code : ServiceType → Bool × Bool
service_type_code ServiceType.tcp = (true, true)
service_type_code ServiceType.udp = (true, false)
service_type_code ServiceType.http = (false, true)

abbrev service_type_of : Bool × Bool → ServiceType
service_type_of (true, true) = ServiceType.tcp
service_type_of (true, false) = ServiceType.udp
service_type_of (false, b) = ServiceType.http

pub service_type_back : (t : ServiceType) → service_type_of (service_type_code t) ≡ t
service_type_back ServiceType.tcp = refl
service_type_back ServiceType.udp = refl
service_type_back ServiceType.http = refl

instance abbrev pub service_type_eq : Eq ServiceType
service_type_eq = eq_by service_type_code (back service_type_code service_type_of service_type_back)

abbrev transport_type_code : TransportType → Bool × Bool
transport_type_code TransportType.tcp = (true, true)
transport_type_code TransportType.tls = (true, false)
transport_type_code TransportType.noise = (false, true)
transport_type_code TransportType.websocket = (false, false)

abbrev transport_type_of : Bool × Bool → TransportType
transport_type_of (true, true) = TransportType.tcp
transport_type_of (true, false) = TransportType.tls
transport_type_of (false, true) = TransportType.noise
transport_type_of (false, false) = TransportType.websocket

pub transport_type_back : (t : TransportType) → transport_type_of (transport_type_code t) ≡ t
transport_type_back TransportType.tcp = refl
transport_type_back TransportType.tls = refl
transport_type_back TransportType.noise = refl
transport_type_back TransportType.websocket = refl

instance abbrev pub transport_type_eq : Eq TransportType
transport_type_eq =
    eq_by transport_type_code (back transport_type_code transport_type_of transport_type_back)

abbrev client_service_code :
    ClientServiceConfig
    → ServiceType × (Text × (Text × (Bool × (Option Text × (Option Bool × Option ℕ)))))
client_service_code x = (
  x.service_type,
  (x.name, (x.local_addr, (x.prefer_ipv6, (x.token, (x.nodelay, x.retry_interval))))),
)

abbrev client_service_of :
    ServiceType × (Text × (Text × (Bool × (Option Text × (Option Bool × Option ℕ)))))
    → ClientServiceConfig
client_service_of x = record {
  service_type = x.0;
  name = (x.1).0;
  local_addr = ((x.1).1).0;
  prefer_ipv6 = (((x.1).1).1).0;
  token = ((((x.1).1).1).1).0;
  nodelay = (((((x.1).1).1).1).1).0;
  retry_interval = (((((x.1).1).1).1).1).1;
}

instance abbrev pub client_service_eq : Eq ClientServiceConfig
client_service_eq =
    eq_by client_service_code (back client_service_code client_service_of (λ x. refl))

abbrev server_service_code :
    ServerServiceConfig → ServiceType × (Text × (Text × (Option Text × Option Bool)))
server_service_code x = (x.service_type, (x.name, (x.bind_addr, (x.token, x.nodelay))))

abbrev server_service_of :
    ServiceType × (Text × (Text × (Option Text × Option Bool))) → ServerServiceConfig
server_service_of x = record {
  service_type = x.0;
  name = (x.1).0;
  bind_addr = ((x.1).1).0;
  token = (((x.1).1).1).0;
  nodelay = (((x.1).1).1).1;
}

instance abbrev pub server_service_eq : Eq ServerServiceConfig
server_service_eq =
    eq_by server_service_code (back server_service_code server_service_of (λ x. refl))

abbrev tls_code : TlsConfig → Option Text × (Option Text × (Option Text × Option Text))
tls_code x = (x.hostname, (x.trusted_root, (x.pkcs12, x.pkcs12_password)))

abbrev tls_of : Option Text × (Option Text × (Option Text × Option Text)) → TlsConfig
tls_of x = record {
  hostname = x.0;
  trusted_root = (x.1).0;
  pkcs12 = ((x.1).1).0;
  pkcs12_password = ((x.1).1).1;
}

instance abbrev pub tls_eq : Eq TlsConfig
tls_eq = eq_by tls_code (back tls_code tls_of (λ x. refl))

abbrev noise_code : NoiseConfig → Text × (Option Text × Option Text)
noise_code x = (x.pattern, (x.local_private_key, x.remote_public_key))

abbrev noise_of : Text × (Option Text × Option Text) → NoiseConfig
noise_of x = record { pattern = x.0; local_private_key = (x.1).0; remote_public_key = (x.1).1 }

instance abbrev pub noise_eq : Eq NoiseConfig
noise_eq = eq_by noise_code (back noise_code noise_of (λ x. refl))

abbrev websocket_code : WebsocketConfig → Bool
websocket_code x = x.tls

abbrev websocket_of : Bool → WebsocketConfig
websocket_of x = record { tls = x }

instance abbrev pub websocket_eq : Eq WebsocketConfig
websocket_eq = eq_by websocket_code (back websocket_code websocket_of (λ x. refl))

abbrev url_code : Url → Text × Text
url_code x = (x.scheme, x.rest)

abbrev url_of : Text × Text → Url
url_of x = record { scheme = x.0; rest = x.1 }

instance abbrev pub url_eq : Eq Url
url_eq = eq_by url_code (back url_code url_of (λ x. refl))

abbrev tcp_code : TcpConfig → Bool × (ℕ × (ℕ × Option Url))
tcp_code x = (x.nodelay, (x.keepalive_secs, (x.keepalive_interval, x.proxy)))

abbrev tcp_of : Bool × (ℕ × (ℕ × Option Url)) → TcpConfig
tcp_of x = record {
  nodelay = x.0;
  keepalive_secs = (x.1).0;
  keepalive_interval = ((x.1).1).0;
  proxy = ((x.1).1).1;
}

instance abbrev pub tcp_eq : Eq TcpConfig
tcp_eq = eq_by tcp_code (back tcp_code tcp_of (λ x. refl))

abbrev transport_code :
    TransportConfig
    → TransportType
      × (TcpConfig × (Option TlsConfig × (Option NoiseConfig × Option WebsocketConfig)))
transport_code x = (x.transport_type, (x.tcp, (x.tls, (x.noise, x.websocket))))

abbrev transport_of :
    TransportType × (TcpConfig × (Option TlsConfig × (Option NoiseConfig × Option WebsocketConfig)))
    → TransportConfig
transport_of x = record {
  transport_type = x.0;
  tcp = (x.1).0;
  tls = ((x.1).1).0;
  noise = (((x.1).1).1).0;
  websocket = (((x.1).1).1).1;
}

instance abbrev pub transport_eq : Eq TransportConfig
transport_eq = eq_by transport_code (back transport_code transport_of (λ x. refl))

-- `Iterator::all`
abbrev all : {A : Type 0} → (A → Bool) → List A → Bool
all p [] = true
all p (x ∷ xs) = p x && all p xs

-- `PartialEq` of `HashMap`
abbrev pub same_map : {V : Type 0} ⦃e : Eq V⦄ → HashMap Text V → HashMap Text V → Bool
same_map m n = eqb (length m) (length n) && all (λ e. get e.0 n == some e.1) m

-- The fields of a client's configuration other than its services.
abbrev client_fields :
    ClientConfig → Text × (Option Text × (Option Bool × (TransportConfig × (ℕ × ℕ))))
client_fields x = (
  x.remote_addr,
  (x.default_token, (x.prefer_ipv6, (x.transport, (x.heartbeat_timeout, x.retry_interval)))),
)

abbrev pub same_client : ClientConfig → ClientConfig → Bool
same_client a b = client_fields a == client_fields b && same_map a.services b.services

-- The fields of a server's configuration other than its services.
abbrev server_fields :
    ServerConfig → Text × (Option Text × (Text × (Option Text × (TransportConfig × ℕ))))
server_fields x = (
  x.bind_addr,
  (x.default_token, (x.jwt_secret, (x.default_cloud_backend, (x.transport, x.heartbeat_interval)))),
)

abbrev pub same_server : ServerConfig → ServerConfig → Bool
same_server a b = server_fields a == server_fields b && same_map a.services b.services

abbrev pub same_option : {A : Type 0} → (A → A → Bool) → Option A → Option A → Bool
same_option same none none = true
same_option same none (some b) = false
same_option same (some a) none = false
same_option same (some a) (some b) = same a b

abbrev pub same_config : Config → Config → Bool
same_config a b =
    same_option same_server a.server b.server && same_option same_client a.client b.client
