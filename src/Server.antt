-- ===== src/Server.antt =====
-- The tunnel server (rathole/src/server.rs): its services, its control channels and the two
-- handshakes. `control_channels` is used through what a MultiMap promises (MultiMap.Table).
pub mod Channel
pub mod Pool
pub mod Reload
pub mod Handshake
pub mod Accept
pub mod Honest
pub mod Run
pub mod Udp
pub mod Listener
use rathole_with_proxy.Base.{
  ℕ, Bool, true, Option, none, some, List, [], ◌∷◌, ◌++◌, Text, text_eq, ◌==◌, HashMap, get, insert,
  remove, if◌then◌else◌,
}
use rathole_with_proxy.Config.{ServiceType, ServerServiceConfig, ServerConfig}
use rathole_with_proxy.Watcher.{ServerServiceChange, ConfigChange}
use rathole_with_proxy.MultiMap.{key1, key2, is_some}
use rathole_with_proxy.MultiMap.Table.{Table, item_of, without, table_insert}
use rathole_with_proxy.Protocol.{
  Codec, Digest, Hello, Auth, Ack, digest, as_bytes, current_proto_version, read_auth, read_hello,
}
use rathole_with_proxy.Protocol.Stream.{
  Error, Result, ok, err, Conn, Io, ◌>>=◌, pure, bail, write_all, flush,
}

abbrev pub tcp_pool_size : ℕ
tcp_pool_size = 8

abbrev pub udp_pool_size : ℕ
udp_pool_size = 2

-- The handle of a control channel: its service, the requests for data channels that are queued when
-- it starts, and the data channels that it has been given; `alive` while its pool receives them.
pub record ControlChannelHandle : Type 0 where
  pub service : ServerServiceConfig
  pub requests : ℕ
  pub data_channels : List Conn
  pub alive : Bool

abbrev pub ControlChannelMap : Type 0
ControlChannelMap = Table Digest Digest ControlChannelHandle

pub record Server : Type 0 where
  pub config : ServerConfig
  pub services : HashMap Digest ServerServiceConfig
  pub control_channels : ControlChannelMap

-- A session of handle_connection: the connection and the shared control channels.
pub record Session : Type 0 where
  pub conn : Conn
  pub channels : ControlChannelMap

abbrev pub on_conn : {A : Type 0} → Io Conn A → Io Session A
on_conn m s = let (c, r) = m s.conn in (record s { conn = c }, r)

module _ (x : Codec) where
  abbrev pub name_digest : Text → Digest
  name_digest name = digest x (as_bytes name)

  abbrev pub insert_services :
      HashMap Text ServerServiceConfig
      → HashMap Digest ServerServiceConfig
      → HashMap Digest ServerServiceConfig
  insert_services [] ret = ret
  insert_services ((name, c) ∷ us) ret = insert_services us (insert (name_digest name) c ret)

  unfoldable pub generate_service_hashmap : ServerConfig → HashMap Digest ServerServiceConfig
  generate_service_hashmap server_config = insert_services server_config.services []

  unfoldable pub from : ServerConfig → Server
  unfolding generate_service_hashmap
  from config = record {
    config = config;
    services = generate_service_hashmap config;
    control_channels = [];
  }

  unfoldable pub handle_hot_reload : ConfigChange → Server → Server
  handle_hot_reload (ConfigChange.server_change (ServerServiceChange.add cfg)) s = record s {
    services = insert (name_digest cfg.name) cfg s.services;
    control_channels = without key1 (name_digest cfg.name) s.control_channels;
  }
  handle_hot_reload (ConfigChange.server_change (ServerServiceChange.delete name)) s = record s {
    services = remove (name_digest name) s.services;
    control_channels = without key1 (name_digest name) s.control_channels;
  }
  handle_hot_reload (ConfigChange.general c) s = s
  handle_hot_reload (ConfigChange.client_change c) s = s

  -- The changes that arrive at a running server, in their order.
  abbrev pub reload : List ConfigChange → Server → Server
  reload [] s = s
  reload (e ∷ es) s = reload es (handle_hot_reload e s)

  -- ControlChannelHandle::new; `none` is the panic of `todo!()`.
  abbrev pub new_handle : ServerServiceConfig → Option ControlChannelHandle
  new_handle service = elim service.service_type [
    | ServiceType.tcp ↦
        some
          (record { service = service; requests = tcp_pool_size; data_channels = []; alive = true })
    | ServiceType.udp ↦
        some
          (record { service = service; requests = udp_pool_size; data_channels = []; alive = true })
    | ServiceType.http ↦ none
  ]

  abbrev pub insert_handle : Digest → Digest → Option ControlChannelHandle → Io Session (Unit {0})
  insert_handle service_digest session_key none s = (s, err Error.panicked)
  insert_handle service_digest session_key (some handle) s =
      (record s { channels = table_insert service_digest session_key handle s.channels }, ok tt)

  abbrev pub drop_channel : Digest → Io Session (Unit {0})
  drop_channel service_digest s =
      (record s { channels = without key1 service_digest s.channels }, ok tt)

  -- After the authentication.
  abbrev pub establish : Digest → Digest → ServerServiceConfig → Io Session (Unit {0})
  establish service_digest session_key service_config = do
    previous ← drop_channel service_digest
    ack ← on_conn (write_all (x.ack.serialize Ack.accepted))
    flushed ← on_conn flush
    insert_handle service_digest session_key (new_handle service_config)

  -- What goes out when a handshake is refused.
  abbrev pub refuse : Ack → Error → Io Session (Unit {0})
  refuse ack e = do sent ← on_conn (write_all (x.ack.serialize ack)); bail e

  abbrev pub validate : Digest → Digest → ServerServiceConfig → Auth → Io Session (Unit {0})
  validate service_digest session_key service_config auth =
      if session_key == auth.digest
      then establish service_digest session_key service_config
      else refuse Ack.auth_failed Error.auth_failed

  -- The token must be there, or `unwrap` panics.
  abbrev pub authenticate :
      Digest → Digest → ServerServiceConfig → Option Text → Io Session (Unit {0})
  authenticate nonce service_digest service_config none = bail Error.panicked
  authenticate nonce service_digest service_config (some token) = do
    auth ← on_conn (read_auth x)
    validate service_digest (digest x (as_bytes token ++ nonce)) service_config auth

  abbrev pub lookup : Digest → Digest → Option ServerServiceConfig → Io Session (Unit {0})
  lookup nonce service_digest none = refuse Ack.service_not_exist Error.no_such_service
  lookup nonce service_digest (some service_config) =
      authenticate nonce service_digest service_config service_config.token

  -- `nonce` is the random one of the session.
  unfoldable pub do_control_channel_handshake :
      HashMap Digest ServerServiceConfig → (nonce service_digest : Digest) → Io Session (Unit {0})
  do_control_channel_handshake services nonce service_digest = do
    hello ←
        on_conn
          (write_all (x.hello.serialize (Hello.control_channel_hello current_proto_version nonce)))
    flushed ← on_conn flush
    lookup nonce service_digest (get service_digest services)

  -- The data channel goes to the handle in the table.
  abbrev pub give : Digest → Conn → ControlChannelMap → ControlChannelMap
  give nonce conn [] = []
  give nonce conn (h ∷ hs) =
      if key2 h == nonce
      then (h.0, h.1, record h.2 { data_channels = h.2.data_channels ++ conn ∷ [] }) ∷ hs
      else h ∷ give nonce conn hs

  -- With the handle of the nonce, if there is one.
  abbrev pub give_to :
      Digest → Option (Digest × Digest × ControlChannelHandle) → Io Session (Unit {0})
  give_to nonce none s = (s, ok tt)
  give_to nonce (some h) s =
      if h.2.alive
      then (record s { channels = give nonce s.conn s.channels }, ok tt)
      else (s, err Error.stale_channel)

  unfoldable pub do_data_channel_handshake : Digest → Io Session (Unit {0})
  do_data_channel_handshake nonce s = give_to nonce (item_of key2 nonce s.channels) s

  abbrev pub dispatch : HashMap Digest ServerServiceConfig → Digest → Hello → Io Session (Unit {0})
  dispatch services nonce (Hello.control_channel_hello v d) =
      do_control_channel_handshake services nonce d
  dispatch services nonce (Hello.data_channel_hello v d) = do_data_channel_handshake d

  unfoldable pub handle_connection :
      HashMap Digest ServerServiceConfig → Digest → Io Session (Unit {0})
  unfolding do_control_channel_handshake do_data_channel_handshake
  handle_connection services nonce = do
    hello ← on_conn (read_hello x)
    dispatch services nonce hello
