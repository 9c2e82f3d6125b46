-- ===== src/Client.antt =====
-- The tunnel client (rathole/src/client.rs): its control channels, its data channels and its
-- services. The transport's connection is the `Conn` that a function starts with.
pub mod Agreement
pub mod Forwarders
pub mod Run
use rathole_with_proxy.Base.{
  ℕ, suc, Bool, true, false, Option, none, some, List, [], ◌∷◌, ◌++◌, Text, text_eq, HashMap,
  insert, remove,
}
use rathole_with_proxy.Config.{ServiceType, ClientServiceConfig, ClientConfig}
use rathole_with_proxy.Watcher.{ClientServiceChange, ConfigChange}
use rathole_with_proxy.Protocol.{
  Codec, Digest, Hello, Auth, Ack, ControlChannelCmd, DataChannelCmd, digest, as_bytes,
  current_proto_version, read_hello, read_ack, read_data_cmd, UdpTraffic,
}
use rathole_with_proxy.Protocol.Stream.{
  Error, Result, ok, err, Conn, Io, ◌>>=◌, pure, bail, write_all, flush,
}

-- A client with the services that it runs a control channel for, by their names.
pub record Client : Type 0 where
  pub config : ClientConfig
  pub service_handles : HashMap Text ClientServiceConfig

abbrev pub start_all :
    HashMap Text ClientServiceConfig
    → HashMap Text ClientServiceConfig
    → HashMap Text ClientServiceConfig
start_all [] handles = handles
start_all ((name, config) ∷ services) handles = start_all services (insert name config handles)

-- The start of Client::run.
unfoldable pub start : ClientConfig → Client
start config = record { config = config; service_handles = start_all config.services [] }

unfoldable pub handle_hot_reload : ConfigChange → Client → Client
handle_hot_reload (ConfigChange.client_change (ClientServiceChange.add cfg)) c = record c {
  service_handles = insert cfg.name cfg c.service_handles;
}
handle_hot_reload (ConfigChange.client_change (ClientServiceChange.delete name)) c = record c {
  service_handles = remove name c.service_handles;
}
handle_hot_reload (ConfigChange.general g) c = c
handle_hot_reload (ConfigChange.server_change s) c = c

-- The nonce of the server's hello.
abbrev pub nonce_of : Hello → Io Conn Digest
nonce_of (Hello.control_channel_hello v d) = pure d
nonce_of (Hello.data_channel_hello v d) = bail Error.unexpected_hello

abbrev pub check_ack : Ack → Io Conn (Unit {0})
check_ack Ack.accepted = pure tt
check_ack Ack.service_not_exist = bail Error.no_such_service
check_ack Ack.auth_failed = bail Error.auth_failed

module _ (x : Codec) where
  -- The token must be there, or `unwrap` panics.
  abbrev pub session_key : Option Text → Digest → Io Conn Digest
  session_key none nonce = bail Error.panicked
  session_key (some token) nonce = pure (digest x (as_bytes token ++ nonce))

  -- ControlChannel::run from the connection to the channel that is ready, with its session key.
  unfoldable pub handshake : ClientServiceConfig → Io Conn Digest
  handshake service = do
    hello ← write_all (
        x.hello.serialize
          (Hello.control_channel_hello current_proto_version (digest x (as_bytes service.name))))
    flushed ← flush
    answer ← read_hello x
    nonce ← nonce_of answer
    key ← session_key service.token nonce
    auth ← write_all (x.auth.serialize (record { digest = key }))
    flushed2 ← flush
    ack ← read_ack x
    checked ← check_ack ack
    pure key

  -- What the `select!` of ControlChannel::run meets once the channel is ready.
  pub data Event : Type 0 where
    command : ControlChannelCmd → Event
    read_failed timed_out shutdown : Event
    health_sent : (sent : Bool) → Event

  -- The loop of ControlChannel::run: the data channels that it starts, and whether it ends with an
  -- error, so that the client connects again.
  abbrev pub one_more : ℕ × Bool → ℕ × Bool
  one_more (n, again) = (suc n, again)

  unfoldable pub control_loop : List Event → ℕ × Bool
  control_loop [] = (0, false)
  control_loop (Event.command ControlChannelCmd.create_data_channel ∷ es) =
      one_more (control_loop es)
  control_loop (Event.command ControlChannelCmd.heart_beat ∷ es) = control_loop es
  control_loop (Event.read_failed ∷ es) = (0, true)
  control_loop (Event.timed_out ∷ es) = (0, true)
  control_loop (Event.shutdown ∷ es) = (0, false)
  control_loop (Event.health_sent true ∷ es) = control_loop es
  control_loop (Event.health_sent false ∷ es) = (0, false)

  unfoldable pub do_data_channel_handshake : Digest → Io Conn (Unit {0})
  do_data_channel_handshake key = do
    hello ← write_all (x.hello.serialize (Hello.data_channel_hello current_proto_version key))
    flush

  abbrev pub forward_as : ServiceType → DataChannelCmd → Io Conn DataChannelCmd
  forward_as ServiceType.tcp DataChannelCmd.start_forward_tcp =
      pure DataChannelCmd.start_forward_tcp
  forward_as ServiceType.udp DataChannelCmd.start_forward_udp =
      pure DataChannelCmd.start_forward_udp
  forward_as _ cmd = bail Error.unexpected_traffic

  -- run_data_channel up to the traffic that it forwards.
  unfoldable pub run_data_channel : ClientServiceConfig → Digest → Io Conn DataChannelCmd
  unfolding do_data_channel_handshake
  run_data_channel service key = do
    hello ← do_data_channel_handshake key
    cmd ← read_data_cmd x
    forward_as service.service_type cmd
