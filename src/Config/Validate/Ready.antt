-- ===== src/Config/Validate/Ready.antt =====
-- A configuration that `from_str` accepts is ready for use (rathole/src/config.rs: impl Config).
use rathole_with_proxy.Base.{
  Bool, true, false, ◌≡◌, ◌≢◌, subst, ◌⊎◌, inl, inr, Option, none, some, All, Text, Option-cases,
  arith, codes, text_eq, ==_iff,
}
use rathole_with_proxy.Config.{
  TransportType, TransportConfig, TlsConfig, Url, ServerConfig, ClientConfig, Config,
}
use rathole_with_proxy.Config.Validate.{
  Result, ok, from_str, validate_server_config, validate_client_config, validate_transport_config,
  check_proxy, check_identity, validate_some, require_one,
}
use rathole_with_proxy.Config.Validate.Tokens.{
  ServerReady, ClientReady, fill_server-cases, fill_client-cases, Result-cases,
}

-- A proxy is a SOCKS5 or an HTTP one; TLS has its block, and on a server an identity.
pub record TransportReady (config : TransportConfig) (is_server : Bool) : Type 0 where
  pub proxy :
      (u : Url)
      → config.tcp.proxy ≡ some u
      → (u.scheme ≡ codes "socks5") ⊎ (u.scheme ≡ codes "http")
  pub tls :
      config.transport_type ≡ TransportType.tls
      → (t : TlsConfig) × (config.tls ≡ some t)
        × (is_server ≡ true → (t.pkcs12 ≢ none) × (t.pkcs12_password ≢ none))

check_proxy-ok :
    (o : Option Url)
    → check_proxy o ≡ ok tt
    → (u : Url) → o ≡ some u
    → (u.scheme ≡ codes "socks5") ⊎ (u.scheme ≡ codes "http")
check_proxy-ok none h u q = cc
check_proxy-ok (some v) h u q =
    ground (arith, ==_iff v.scheme (codes "socks5"), ==_iff v.scheme (codes "http"))

check_identity-ok :
    (b : Bool) (t : TlsConfig)
    → check_identity b t ≡ ok tt
    → b ≡ true
    → (t.pkcs12 ≢ none) × (t.pkcs12_password ≢ none)
check_identity-ok false t h q = cc
check_identity-ok true t h q = elim (Option-cases t.pkcs12) [
  | inl n ↦ ground arith
  | inr (a, s) ↦ elim (Option-cases t.pkcs12_password) [
    | inl n ↦ ground arith
    | inr (b, r) ↦ ((λ e. cc), (λ e. cc))
  ]
]

pub validate_transport_config-ok :
    (c : TransportConfig) (b : Bool) → validate_transport_config c b ≡ ok tt → TransportReady c b
unfolding validate_transport_config
validate_transport_config-ok c b h = record {
  proxy = check_proxy-ok c.tcp.proxy (ground arith);
  tls = λ q. elim (Option-cases c.tls) [
    | inl n ↦ ground arith
    | inr (t, s) ↦ (t, s, check_identity-ok b t (ground arith))
  ];
}

abbrev pub ServerValid : ServerConfig → Type 0
ServerValid s = All ServerReady s.services × TransportReady s.transport true

abbrev pub ClientValid : ClientConfig → Type 0
ClientValid c = All ClientReady c.services × TransportReady c.transport false

pub validate_server_config-ok :
    (s t : ServerConfig) → validate_server_config s ≡ ok t → ServerValid t
unfolding validate_server_config
validate_server_config-ok s t h = elim (fill_server-cases s.default_token s.services) [
  | inr (k, e, i, n) ↦ ground arith
  | inl (out, e, r, n) ↦ elim (Result-cases (validate_transport_config s.transport true)) [
    | inl (z, q) ↦ ground arith
    | inr (u, q) ↦
        let same : record s { services = out } ≡ t = ground arith in
        subst ServerValid same (r, validate_transport_config-ok s.transport true q)
  ]
]

pub validate_client_config-ok :
    (s t : ClientConfig) → validate_client_config s ≡ ok t → ClientValid t
unfolding validate_client_config
validate_client_config-ok s t h =
    elim (fill_client-cases s.default_token s.retry_interval s.services) [
      | inr (k, e, i, n) ↦ ground arith
      | inl (out, e, r, n) ↦ elim (Result-cases (validate_transport_config s.transport false)) [
        | inl (z, q) ↦ ground arith
        | inr (u, q) ↦
            let same : record s { services = out } ≡ t = ground arith in
            subst ClientValid same (r, validate_transport_config-ok s.transport false q)
      ]
    ]

validate_some-ok :
    {A : Type 0} (check : A → Result A) (P : A → Type 0)
    → ((a b : A) → check a ≡ ok b → P b)
    → (o p : Option A) → validate_some check o ≡ ok p
    → (b : A) → p ≡ some b
    → P b
validate_some-ok check P valid none p h b q = ground arith
validate_some-ok check P valid (some a) p h b q = elim (Result-cases (check a)) [
  | inl (z, r) ↦ ground arith
  | inr (c, r) ↦ let same : c ≡ b = ground arith in subst P same (valid a c r)
]

abbrev pub Ready : Config → Type 0
Ready c =
    ((s : ServerConfig) → c.server ≡ some s → ServerValid s)
    × ((s : ClientConfig) → c.client ≡ some s → ClientValid s)
    × ((c.server ≢ none) ⊎ (c.client ≢ none))

require_one-ok :
    (c d : Config) → require_one c ≡ ok d → (c ≡ d) × ((c.server ≢ none) ⊎ (c.client ≢ none))
require_one-ok c d h = elim (Option-cases c.server) [
  | inr (s, q) ↦ (ground arith, inl (λ e. ground arith))
  | inl q ↦ elim (Option-cases c.client) [
    | inr (s, r) ↦ (ground arith, inr (λ e. ground arith))
    | inl r ↦ ground arith
  ]
]

-- A configuration that `from_str` accepts has a server or a client; every service has the name
-- of its key and a token, those of the client also a retry interval; a proxy is SOCKS5 or
-- HTTP; and the transport TLS has its block, on a server with an identity and its password.
pub from_str-Ready :
    (parse : Text → Option Config) (text : Text) (c : Config) → from_str parse text ≡ ok c → Ready c
unfolding from_str
from_str-Ready parse text c h = elim (Option-cases (parse text)) [
  | inl p ↦ ground arith
  | inr (g, p) ↦ elim (Result-cases (validate_some validate_server_config g.server)) [
    | inl (z, q) ↦ ground arith
    | inr (s, q) ↦ elim (Result-cases (validate_some validate_client_config g.client)) [
      | inl (z, r) ↦ ground arith
      | inr (k, r) ↦
          let one = require_one-ok (record { server = s; client = k }) c (ground arith) in
          subst Ready one.0 (
            validate_some-ok validate_server_config ServerValid validate_server_config-ok g.server s
                q,
            validate_some-ok validate_client_config ClientValid validate_client_config-ok g.client k
                r,
            one.1,
          )
    ]
  ]
]
