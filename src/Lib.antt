-- ===== src/Lib.antt =====
-- A model of rathole, a reverse proxy for services behind NAT, with an HTTP proxy in front of it.
--
-- Two programs share the library rathole/src. The public server (main.rs) accepts tunnel clients on
-- a WebSocket (handle_socket), keeps their senders, the pending responses and the health of each
-- tunnel in one AppState, and answers every other request by proxy_handler (proxy.rs): the tunnel of
-- the request's cookie, else the best tunnel of the subdomain, else a cloud backend. Each finished
-- request marks the health of its tunnel, which the next choice reads. The classic rathole
-- (server.rs, client.rs) forwards TCP and UDP: a client proves a service's token in a handshake over
-- protocol.rs, the server keeps one control channel for a service in a table with two keys
-- (multi_map.rs), and data channels find it by their session key. config.rs reads and validates the
-- configuration, and config_watcher.rs turns a changed file into events for the running instance.
--
-- The files and what they model:
--   Base         the names that all share: lists, texts as code points, HashMap as a list of entries
--   Float        f64 and f32 as a parameter with laws of IEEE 754; Float/Scaled is one instance
--   Health       rathole/src/proxy.rs: TunnelHealth, the marks, decide_routing
--   Sort         slice::sort_by
--   Message      rathole/src/protocol.rs: ControlMessage and what it carries
--   Proxy        rathole/src/proxy.rs: Proxy/Handler (proxy_handler), Proxy/Choose
--                (choose_best_tunnel), Proxy/Forward (forward_via_tunnel, forward_to_cloud),
--                Proxy/Cookie, Proxy/State (AppState); Proxy/Http is the interface of http and hyper
--   MultiMap     rathole/src/multi_map.rs: maps of pointers to boxes on a heap; MultiMap/Table is what
--                it promises, MultiMap/Refinement and MultiMap/History tie the two together
--   Config       rathole/src/config.rs: the records, Config/Validate (impl Config) and
--                Config/Equality (PartialEq)
--   Watcher      rathole/src/config_watcher.rs
--   Protocol     rathole/src/protocol.rs: hello, auth, ack, commands and UDP frames; Protocol/Stream is
--                a connection
--   Server       rathole/src/server.rs: Server, handle_hot_reload, the handshakes; Server/Run has
--                Server::run and the tasks it spawns, Server/Pool the loops of a control channel,
--                Server/Listener tcp_listen_and_send and Server/Udp run_udp_connection_pool
--   Client       rathole/src/client.rs: the handshake, hot reload, data channels; Client/Run has
--                Client::run and the task that reconnects, Client/Forwarders the port map of UDP
--   Transport    rathole/src/transport: SocketOpts, and in Transport/Stacks how TCP, TLS, Noise and
--                WebSocket connect and accept; Transport/Address and Transport/Helper model
--                rathole/src/helper.rs
--   Hardware     rathole/src/hardware.rs
--   Gateway      rathole/src/main.rs: handle_socket, the clean-up task and the route /tunnel
--                (Gateway/Tunnel); Gateway/Login has login of rathole/src/lib.rs with the use of its
--                token, Gateway/Locks the tasks as to the lock of the tunnels
--   Relay        relay/src/main.rs and shared/src/lib.rs, an earlier public server; Relay/Client has
--                client/src/main.rs
--   HttpClient   rathole/src/bin/client.rs: the client that registers a tunnel and answers its requests
--   Tests        concrete inputs
--
-- How it is modelled. An async function is a function of the state that it holds, with its awaits in
-- their order; where other tasks may run, a function of the state stands for them. A connection
-- holds the bytes that the peer sends before it closes and the number of writes that still succeed,
-- so that it may break anywhere. Loops over channels, sockets and file notifications are recursion
-- on the list of what they meet, so no fuel is needed. Instants are nanoseconds; u32, u16, u8 and u64
-- keep their bounds or their wrap-around. In MultiMap, undefined behaviour is `none`. The server uses
-- the table of MultiMap through what it promises. Parameters, with laws where they are used: the
-- encodings of bincode and serde_json, SHA-256, TOML, the crates http and hyper, JSON web tokens, the
-- policies of the crate backoff, and what native-tls, snowstorm and tungstenite answer. A task of
-- Server::run goes on in two steps, at whose boundary it waits for the client; between them any other
-- task, and a hot reload, may run. In Gateway/Locks a task is the list of what it does with one lock,
-- and a run is any list of turns, of new tasks and of tasks that are dropped; the lock of tokio is a
-- parameter.
--
-- Not modelled: the streams that the transports give, which are those of crates, the transport over
-- rustls, timers other than the time-outs that a list of events may contain, the start-up, the
-- command line, and the logs. Channels between tasks have no capacity here, and
-- the receiver of the configuration watcher stays.
pub mod Base
pub mod Float
pub mod Health
pub mod Sort
pub mod Proxy
pub mod Message
pub mod MultiMap
pub mod Config
pub mod Watcher
pub mod Protocol
pub mod Server
pub mod Hardware
pub mod Gateway
pub mod Client
pub mod HttpClient
pub mod Transport
pub mod Relay
pub mod Tests
