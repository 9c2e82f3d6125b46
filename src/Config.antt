-- ===== src/Config.antt =====
-- The configuration and its validation (rathole/src/config.rs). A URL is modelled by the part that
-- the validation reads, `U` with its scheme; the parser of TOML is a parameter of `from_str`.
pub mod Validate
pub mod Equality
use rathole_with_proxy.Base.{ℕ, Bool, true, Option, none, [], Text, codes, HashMap}

pub data TransportType : Type 0 where
  tcp tls noise websocket : TransportType

pub data ServiceType : Type 0 where
  tcp udp http : ServiceType

abbrev pub default_heartbeat_interval : ℕ
default_heartbeat_interval = 30

abbrev pub default_heartbeat_timeout : ℕ
default_heartbeat_timeout = 40

abbrev pub default_client_retry_interval : ℕ
default_client_retry_interval = 1

pub record ClientServiceConfig : Type 0 where
  pub service_type : ServiceType
  pub name : Text
  pub local_addr : Text
  pub prefer_ipv6 : Bool
  pub token : Option Text
  pub nodelay : Option Bool
  pub retry_interval : Option ℕ

pub record ServerServiceConfig : Type 0 where
  pub service_type : ServiceType
  pub name : Text
  pub bind_addr : Text
  pub token : Option Text
  pub nodelay : Option Bool

pub record TlsConfig : Type 0 where
  pub hostname : Option Text
  pub trusted_root : Option Text
  pub pkcs12 : Option Text
  pub pkcs12_password : Option Text

pub record NoiseConfig : Type 0 where
  pub pattern : Text
  pub local_private_key : Option Text
  pub remote_public_key : Option Text

pub record WebsocketConfig : Type 0 where
  pub tls : Bool

-- A URL by its scheme and the rest of its text.
pub record Url : Type 0 where
  pub scheme : Text
  pub rest : Text

pub record TcpConfig : Type 0 where
  pub nodelay : Bool
  pub keepalive_secs : ℕ
  pub keepalive_interval : ℕ
  pub proxy : Option Url

abbrev pub default_tcp : TcpConfig
default_tcp = record { nodelay = true; keepalive_secs = 20; keepalive_interval = 8; proxy = none }

pub record TransportConfig : Type 0 where
  pub transport_type : TransportType
  pub tcp : TcpConfig
  pub tls : Option TlsConfig
  pub noise : Option NoiseConfig
  pub websocket : Option WebsocketConfig

abbrev pub default_transport : TransportConfig
default_transport = record {
  transport_type = TransportType.tcp;
  tcp = default_tcp;
  tls = none;
  noise = none;
  websocket = none;
}

pub record ClientConfig : Type 0 where
  pub remote_addr : Text
  pub default_token : Option Text
  pub prefer_ipv6 : Option Bool
  pub services : HashMap Text ClientServiceConfig
  pub transport : TransportConfig
  pub heartbeat_timeout : ℕ
  pub retry_interval : ℕ

pub record ServerConfig : Type 0 where
  pub bind_addr : Text
  pub default_token : Option Text
  pub jwt_secret : Text
  pub default_cloud_backend : Option Text
  pub services : HashMap Text ServerServiceConfig
  pub transport : TransportConfig
  pub heartbeat_interval : ℕ

abbrev pub default_server : ServerConfig
default_server = record {
  bind_addr = [];
  default_token = none;
  jwt_secret = codes "secret";
  default_cloud_backend = none;
  services = [];
  transport = default_transport;
  heartbeat_interval = default_heartbeat_interval;
}

pub record Config : Type 0 where
  pub server : Option ServerConfig
  pub client : Option ClientConfig
