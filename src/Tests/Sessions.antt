-- ===== src/Tests/Sessions.antt =====
-- Inputs for rathole/src/server.rs and rathole/src/client.rs: one service `web` with the token
-- `abc`.
use rathole_with_proxy.Base.{
  ℕ, ◌≡◌, refl, true, false, none, some, List, [], ◌∷◌, ◌++◌, Text, text_eq, codes, HashMap, get,
  arith,
}
use rathole_with_proxy.Config.{
  ServiceType, ClientServiceConfig, ServerServiceConfig, ServerConfig, default_server,
}
use rathole_with_proxy.Watcher.{
  ConfigChange, ServerServiceChange, server_instance, calculate_instance_config_events,
}
use rathole_with_proxy.Config.Equality.{server_service_eq}
use rathole_with_proxy.MultiMap.{key1}
use rathole_with_proxy.MultiMap.Table.{item_of, without}
use rathole_with_proxy.Protocol.{Digest, Auth, digest, as_bytes, read_auth}
use rathole_with_proxy.Protocol.Stream.{Conn, ok, read_exact, write_all, flush, ◌>>=◌}
use rathole_with_proxy.Server.{
  ControlChannelHandle, ControlChannelMap, Session, name_digest, from, reload,
  do_control_channel_handshake, handle_connection,
}
use rathole_with_proxy.Server.Reload.{reload-from}
use rathole_with_proxy.Server.Accept.{Proves, do_control_channel_handshake-Proves}
use rathole_with_proxy.Client.{handshake}
use rathole_with_proxy.Client.Agreement.{client_sends, server_sends, handshake-handle_connection}
use rathole_with_proxy.Tests.Wire.{codec, hello-IsFormat, auth-IsFormat, ack-IsFormat}

abbrev pub web : ServerServiceConfig
web = record {
  service_type = ServiceType.tcp;
  name = codes "web";
  bind_addr = codes "0.0.0.0:80";
  token = some (codes "abc");
  nodelay = none;
}

abbrev pub web_client : ClientServiceConfig
web_client = record {
  service_type = ServiceType.tcp;
  name = codes "web";
  local_addr = codes "127.0.0.1:80";
  prefer_ipv6 = false;
  token = some (codes "abc");
  nodelay = none;
  retry_interval = some 1;
}

abbrev pub web_digest : Digest
web_digest = name_digest codec (codes "web")

abbrev pub nonce : Digest
nonce = 7 ∷ []

abbrev pub session_key : Digest
session_key = digest codec (as_bytes (codes "abc") ++ nonce)

abbrev pub services : HashMap Digest ServerServiceConfig
services = (web_digest, web) ∷ []

abbrev pub handle : ControlChannelHandle
handle = record { service = web; requests = 8; data_channels = []; alive = true }

-- An earlier channel of the service, and one of another service.
abbrev pub channels : ControlChannelMap
channels = (web_digest, 1 ∷ [], handle) ∷ (2 ∷ [], 3 ∷ [], handle) ∷ []

-- A client that has proved its token.
abbrev session : Session
session = record {
  conn = record { incoming = session_key ++ 5 ∷ []; outgoing = []; writes = 4 };
  channels = channels;
}

accepted : (do_control_channel_handshake codec services nonce web_digest session).1 ≡ ok tt
unfolding do_control_channel_handshake ◌>>=◌ write_all flush read_auth read_exact get
accepted = refl

do_control_channel_handshake-Proves_example :
    (c : ServerServiceConfig) × (token : Text) × (t : Conn) × (u : Conn) × (auth : Auth) × (get
        web_digest services
      ≡ some c)
    × (c.token ≡ some token)
    × (t.incoming ≡ session_key ++ 5 ∷ [])
    × (read_auth codec t ≡ (u, ok auth))
    × Proves codec nonce token auth
do_control_channel_handshake-Proves_example =
    do_control_channel_handshake-Proves codec services nonce web_digest session accepted

handshake-handle_connection_example :
    (handshake codec web_client
        (record { incoming = server_sends codec nonce ++ 5 ∷ []; outgoing = []; writes = 4 })
      ≡ (
        record {
          incoming = 5 ∷ [];
          outgoing = client_sends codec web_client (codes "abc") nonce;
          writes = 0;
        },
        ok session_key,
      ))
    × (handle_connection codec services nonce (record {
      conn = record {
        incoming = client_sends codec web_client (codes "abc") nonce ++ 5 ∷ [];
        outgoing = [];
        writes = 4;
      };
      channels = channels;
    })
        ≡ (
          record {
            conn = record { incoming = 5 ∷ []; outgoing = server_sends codec nonce; writes = 0 };
            channels = (web_digest, session_key, handle) ∷ without key1 web_digest channels;
          },
          ok tt,
        ))
unfolding get without item_of
handshake-handle_connection_example =
    handshake-handle_connection codec hello-IsFormat auth-IsFormat ack-IsFormat services nonce
      web_client web (codes "abc") handle channels (5 ∷ []) 0 refl refl refl refl refl refl refl
      (((λ e. ground arith), tt), (tt, tt)) refl

abbrev moved : ServerServiceConfig
moved = record web { bind_addr = codes "0.0.0.0:81" }

abbrev api : ServerServiceConfig
api = record web { name = codes "api" }

abbrev old : ServerConfig
old = record default_server { services = (codes "web", web) ∷ [] }

abbrev renewed : ServerConfig
renewed = record default_server { services = (codes "web", moved) ∷ (codes "api", api) ∷ [] }

abbrev events : List ConfigChange
events =
    ConfigChange.server_change (ServerServiceChange.add moved)
    ∷ ConfigChange.server_change (ServerServiceChange.add api)
    ∷ []

events_come : calculate_instance_config_events server_instance old renewed ≡ some events
unfolding calculate_instance_config_events get
events_come = refl

reload-from_example :
    get (name_digest codec (codes "api")) (reload codec events (from codec old)).services
    ≡ get (name_digest codec (codes "api")) (from codec renewed).services
unfolding get
reload-from_example =
    reload-from codec old renewed (from codec old) events (codes "api") ((λ e. ground arith), tt)
      ((λ e. ground arith), ((λ e. refl), tt)) (refl, tt) (refl, (refl, tt)) (refl, (refl, tt))
      events_come refl

-- A broken data channel and two that work, for three visitors.
abbrev data_channels : List Conn
data_channels =
    record { incoming = []; outgoing = []; writes = 1 }
    ∷ record { incoming = []; outgoing = []; writes = 2 }
    ∷ record { incoming = []; outgoing = []; writes = 9 }
    ∷ []

abbrev visitors : List ℕ
visitors = 1 ∷ 2 ∷ 3 ∷ []
