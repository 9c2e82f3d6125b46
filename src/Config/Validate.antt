-- ===== src/Config/Validate.antt =====
-- The validation of a parsed configuration (rathole/src/config.rs: impl Config). A message of an
-- error is its format string with its argument.
pub mod Tokens
pub mod Ready
use rathole_with_proxy.Base.{
  ℕ, Bool, true, false, Option, none, some, List, [], ◌∷◌, Text, text_eq, codes, HashMap, ◌==◌,
  if◌then◌else◌,
}
use rathole_with_proxy.Config.{
  TransportType, TransportConfig, TlsConfig, Url, ClientServiceConfig, ServerServiceConfig,
  ClientConfig, ServerConfig, Config,
}

pub data ConfigError : Type 0 where
  not_parsed not_readable missing_tls missing_pkcs12 nothing_defined : ConfigError
  token_not_set : (service : Text) → ConfigError
  unknown_proxy_scheme : (scheme : Text) → ConfigError

pub data Result (A : Type 0) : Type 0 where
  err : ConfigError → Result A
  ok : A → Result A

infixl 5 ◌>>=◌
abbrev pub ◌>>=◌ : {A B : Type 0} → Result A → (A → Result B) → Result B
ok a >>= k = k a
err e >>= k = err e

abbrev pub ok_or : {A : Type 0} → Option A → ConfigError → Result A
ok_or none e = err e
ok_or (some a) e = ok a

-- A service's own token, or else the default one.
abbrev pub token_or : Option Text → Option Text → Option Text
token_or (some t) default_token = some t
token_or none default_token = default_token

abbrev pub retry_or : Option ℕ → ℕ → Option ℕ
retry_or (some n) default_interval = some n
retry_or none default_interval = some default_interval

-- The loop of validate_server_config over the services.
unfoldable pub fill_server :
    Option Text → HashMap Text ServerServiceConfig → Result (HashMap Text ServerServiceConfig)
fill_server default_token [] = ok []
fill_server default_token ((name, s) ∷ rest) = do
  token ← ok_or (token_or s.token default_token) (token_not_set name)
  filled ← fill_server default_token rest
  ok ((name, record s { name = name; token = some token }) ∷ filled)

-- The loop of validate_client_config over the services.
unfoldable pub fill_client :
    Option Text → ℕ → HashMap Text ClientServiceConfig → Result (HashMap Text ClientServiceConfig)
fill_client default_token interval [] = ok []
fill_client default_token interval ((name, s) ∷ rest) = do
  token ← ok_or (token_or s.token default_token) (token_not_set name)
  filled ← fill_client default_token interval rest
  ok (
      (
        name,
        record s {
          name = name;
          token = some token;
          retry_interval = retry_or s.retry_interval interval;
        },
      )
      ∷ filled)

abbrev pub check_proxy : Option Url → Result (Unit {0})
check_proxy none = ok tt
check_proxy (some u) =
    if u.scheme == codes "socks5"
    then ok tt
    else if u.scheme == codes "http"
    then ok tt
    else err (unknown_proxy_scheme u.scheme)

-- `pkcs12.and(pkcs12_password)`
abbrev pub both : Option Text → Option Text → Option Text
both none b = none
both (some a) b = b

abbrev pub check_identity : Bool → TlsConfig → Result (Unit {0})
check_identity false tls_config = ok tt
check_identity true tls_config = do
  identity ← ok_or (both tls_config.pkcs12 tls_config.pkcs12_password) missing_pkcs12
  ok tt

abbrev pub check_transport : TransportType → TransportConfig → Bool → Result (Unit {0})
check_transport TransportType.tls config is_server = do
  tls_config ← ok_or config.tls missing_tls
  check_identity is_server tls_config
check_transport _ config is_server = ok tt

unfoldable pub validate_transport_config : TransportConfig → Bool → Result (Unit {0})
validate_transport_config config is_server = do
  proxy ← check_proxy config.tcp.proxy
  check_transport config.transport_type config is_server

unfoldable pub validate_server_config : ServerConfig → Result ServerConfig
unfolding fill_server validate_transport_config
validate_server_config server = do
  services ← fill_server server.default_token server.services
  transport ← validate_transport_config server.transport true
  ok (record server { services = services })

unfoldable pub validate_client_config : ClientConfig → Result ClientConfig
unfolding fill_client validate_transport_config
validate_client_config client = do
  services ← fill_client client.default_token client.retry_interval client.services
  transport ← validate_transport_config client.transport false
  ok (record client { services = services })

abbrev pub validate_some : {A : Type 0} → (A → Result A) → Option A → Result (Option A)
validate_some check none = ok none
validate_some check (some a) = do b ← check a; ok (some b)

abbrev pub require_one : Config → Result Config
require_one config = elim config.server [
  | some server ↦ ok config
  | none ↦ elim config.client [ some client ↦ ok config | none ↦ err nothing_defined ]
]

-- `parse` is the parser of TOML.
unfoldable pub from_str : (Text → Option Config) → Text → Result Config
unfolding validate_server_config validate_client_config
from_str parse s = do
  config ← ok_or (parse s) not_parsed
  server ← validate_some validate_server_config config.server
  client ← validate_some validate_client_config config.client
  require_one (record { server = server; client = client })
