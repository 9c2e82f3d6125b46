-- ===== src/Transport.antt =====
-- The transports of the tunnels (rathole/src/transport/mod.rs, with rathole/src/helper.rs below): socket
-- options, addresses, and how a connection is set up. A `TcpStream` is its peer and its options.
pub mod Address
pub mod Helper
pub mod Stacks
pub mod Options
pub mod Validated
pub mod Frames
use rathole_with_proxy.Base.{ℕ, Bool, true, false, Option, none, some, Text}
use rathole_with_proxy.Config.{TcpConfig, ClientServiceConfig, ServerServiceConfig}

-- The result of a call that may panic.
pub data Outcome (A : Type 0) : Type 0 where
  ok : A → Outcome A
  err panic : Outcome A

infixl 5 ◌>>=◌
abbrev pub ◌>>=◌ : {A B : Type 0} → Outcome A → (A → Outcome B) → Outcome B
ok a >>= k = k a
err >>= k = err
panic >>= k = panic

-- `ok_or(…)?`
abbrev pub or_err : {A : Type 0} → Option A → Outcome A
or_err none = err
or_err (some a) = ok a

-- `unwrap` and `expect`
abbrev pub or_panic : {A : Type 0} → Option A → Outcome A
or_panic none = panic
or_panic (some a) = ok a

pub record Keepalive : Type 0 where
  pub keepalive_secs : ℕ
  pub keepalive_interval : ℕ

-- `none` does not change the option.
pub record SocketOpts : Type 0 where
  pub nodelay : Option Bool
  pub keepalive : Option Keepalive

abbrev pub no_opts : SocketOpts
no_opts = record { nodelay = none; keepalive = none }

abbrev pub for_control_channel : SocketOpts
for_control_channel = record no_opts { nodelay = some true }

abbrev pub from_cfg : TcpConfig → SocketOpts
from_cfg cfg = record {
  nodelay = some cfg.nodelay;
  keepalive =
      some (record {
        keepalive_secs = cfg.keepalive_secs;
        keepalive_interval = cfg.keepalive_interval;
      });
}

abbrev pub from_client_cfg : ClientServiceConfig → SocketOpts
from_client_cfg cfg = record no_opts { nodelay = cfg.nodelay }

abbrev pub from_server_cfg : ServerServiceConfig → SocketOpts
from_server_cfg cfg = record no_opts { nodelay = cfg.nodelay }

-- `P` is the type of peers.
pub record TcpStream (P : Type 0) : Type 0 where
  pub peer : P
  pub nodelay : Bool
  pub keepalive : Option Keepalive

module _ {P : Type 0} where
  abbrev pub set_keepalive : Option Keepalive → TcpStream P → TcpStream P
  set_keepalive none s = s
  set_keepalive (some k) s = record s { keepalive = some k }

  abbrev pub set_nodelay : Option Bool → TcpStream P → TcpStream P
  set_nodelay none s = s
  set_nodelay (some b) s = record s { nodelay = b }

  -- `SocketOpts::apply` on a socket that takes its options; a refusal is only logged.
  unfoldable pub apply : SocketOpts → TcpStream P → TcpStream P
  apply opts s = set_nodelay opts.nodelay (set_keepalive opts.keepalive s)

-- An address, and the socket address that it resolved to.
pub record AddrMaybeCached (A : Type 0) : Type 0 where
  pub addr : Text
  pub socket_addr : Option A

abbrev pub new_addr : {A : Type 0} → Text → AddrMaybeCached A
new_addr addr = record { addr = addr; socket_addr = none }

-- `resolve` with the first address of the lookup, if there is one.
abbrev pub resolve : {A : Type 0} → Option A → AddrMaybeCached A → Outcome (AddrMaybeCached A)
resolve found a = do s ← or_err found; ok (record a { socket_addr = some s })
