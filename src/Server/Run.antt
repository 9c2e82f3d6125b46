-- ===== src/Server/Run.antt =====
-- The server while it runs (rathole/src/server.rs: Server::run). Each accepted connection has a task;
-- a task runs up to the answer that it waits for, and other tasks and hot reloads come between.
pub mod Phases
pub mod Turns
pub mod Invariant
pub mod Services
pub mod Stale
pub mod Reads
pub mod Opened
pub mod Proved
use rathole_with_proxy.Base.{
  ℕ, zero, suc, Bool, true, false, Option, none, some, List, [], ◌∷◌, ◌++◌, HashMap, text_eq, get,
}
use rathole_with_proxy.Config.{ServerServiceConfig}
use rathole_with_proxy.Watcher.{ConfigChange}
use rathole_with_proxy.Protocol.{Codec, Digest, Hello, Ack, current_proto_version, read_hello}
use rathole_with_proxy.Protocol.Stream.{
  Error, Result, ok, err, Conn, Io, ◌>>=◌, pure, write_all, flush,
}
use rathole_with_proxy.Server.{
  Server, Session, ControlChannelMap, on_conn, refuse, authenticate, do_data_channel_handshake,
  handle_hot_reload,
}

-- `backoff::ExponentialBackoff`: the next delay, unless it gives up, and the start again.
pub record Backoff : Type 1 where
  pub State : Type 0
  pub next_backoff : State → Option (ℕ × State)
  pub reset : State → State

-- How far handle_connection has come: it waits for the proof of a token, or is done.
pub data Progress : Type 0 where
  awaits_auth : (service_digest : Digest) (service_config : ServerServiceConfig) → Progress
  over : Progress

-- The task of a connection, with the nonce of its session.
pub data Task : Type 0 where
  accepted : (nonce : Digest) (conn : Conn) → Task
  waiting :
      (nonce service_digest : Digest) (service_config : ServerServiceConfig) (conn : Conn) → Task

-- What the `select!` meets, and the turns of the tasks. `accepted none` is a transport handshake
-- that fails or takes too long.
pub data Event : Type 0 where
  accept_failed : (is_io : Bool) → Event
  accepted : Option (Digest × Conn) → Event
  turn : (task : ℕ) → Event
  update : Option ConfigChange → Event
  shutdown : Event

module _ (x : Codec) where
  abbrev pub find : Digest → Option ServerServiceConfig → Io Session Progress
  find service_digest none = do
    refused ← refuse x Ack.service_not_exist Error.no_such_service
    pure Progress.over
  find service_digest (some service_config) =
      pure (Progress.awaits_auth service_digest service_config)

  abbrev pub first : HashMap Digest ServerServiceConfig → Digest → Hello → Io Session Progress
  first services nonce (Hello.control_channel_hello v d) = do
    hello ←
        on_conn
          (write_all (x.hello.serialize (Hello.control_channel_hello current_proto_version nonce)))
    flushed ← on_conn flush
    find d (get d services)
  first services nonce (Hello.data_channel_hello v d) = do
    done ← do_data_channel_handshake x d
    pure Progress.over

  -- handle_connection up to the wait for the proof: the service is looked up here.
  unfoldable pub begin : HashMap Digest ServerServiceConfig → Digest → Io Session Progress
  begin services nonce = do hello ← on_conn (read_hello x); first services nonce hello

  -- The rest of it, with the service that was found.
  abbrev pub finish : Digest → Progress → Io Session (Unit {0})
  finish nonce (Progress.awaits_auth d c) = authenticate x nonce d c c.token
  finish nonce Progress.over = pure tt

  abbrev pub next_task : Digest → Session × Result Progress → ControlChannelMap × List Task
  next_task nonce (s, ok (Progress.awaits_auth d c)) =
      (s.channels, Task.waiting nonce d c s.conn ∷ [])
  next_task nonce (s, ok Progress.over) = (s.channels, [])
  next_task nonce (s, err e) = (s.channels, [])

  -- The turn of a task: what is left of it.
  unfoldable pub run_task :
      HashMap Digest ServerServiceConfig → Task → ControlChannelMap → ControlChannelMap × List Task
  unfolding begin
  run_task services (Task.accepted nonce conn) channels =
      next_task nonce (begin services nonce (record { conn = conn; channels = channels }))
  run_task services (Task.waiting nonce d c conn) channels =
      let s = authenticate x nonce d c c.token (record { conn = conn; channels = channels }) in
      (s.0.channels, [])

  unfoldable pub run_nth :
      HashMap Digest ServerServiceConfig
      → ℕ
      → List Task
      → ControlChannelMap
      → ControlChannelMap × List Task
  unfolding run_task
  run_nth services n [] channels = (channels, [])
  run_nth services zero (t ∷ ts) channels =
      let (c, left) = run_task services t channels in (c, left ++ ts)
  run_nth services (suc n) (t ∷ ts) channels =
      let (c, left) = run_nth services n ts channels in (c, t ∷ left)

  module _ (b : Backoff) where
    pub record Running : Type 0 where
      pub server : Server
      pub tasks : List Task
      pub backoff : b.State

    -- What follows the loop: the control channels are dropped.
    abbrev pub stop : Running → Running
    stop r = let s = r.server in record r { server = record s { control_channels = [] } }

    abbrev pub spawn : Option (Digest × Conn) → List Task → List Task
    spawn none ts = ts
    spawn (some (nonce, conn)) ts = ts ++ Task.accepted nonce conn ∷ []

    abbrev pub reload_with : Option ConfigChange → Server → Server
    reload_with none s = s
    reload_with (some e) s = handle_hot_reload x e s

    -- After an IO error: the delay, unless the policy gives up.
    abbrev pub back_off : Option (ℕ × b.State) → Running → Running × Bool
    back_off none r = (r, false)
    back_off (some (d, state)) r = (record r { backoff = state }, true)

    -- One turn of the loop or of a task; `true` while the loop goes on.
    unfoldable pub step : Event → Running → Running × Bool
    unfolding run_nth handle_hot_reload
    step (Event.accept_failed true) r = back_off (b.next_backoff r.backoff) r
    step (Event.accept_failed false) r = (r, true)
    step (Event.accepted o) r =
        (record r { backoff = b.reset r.backoff; tasks = spawn o r.tasks }, true)
    step (Event.turn n) r =
        let s = r.server in
        let (c, ts) = run_nth s.services n r.tasks s.control_channels in
        (record r { server = record s { control_channels = c }; tasks = ts }, true)
    step (Event.update o) r = (record r { server = reload_with o r.server }, true)
    step Event.shutdown r = (r, false)

    abbrev pub go_on : (Running → Running) → Running × Bool → Running
    go_on rest (r, true) = rest r
    go_on rest (r, false) = stop r

    unfoldable pub run : List Event → Running → Running
    unfolding step
    run [] r = r
    run (e ∷ es) r = go_on (run es) (step e r)
