-- ===== src/Tests/Running.antt =====
-- Inputs for Server::run of rathole/src/server.rs: the service `web` of Sessions.
use rathole_with_proxy.Base.{
  ℕ, ◌≡◌, refl, none, some, List, [], ◌∷◌, text_eq, codes, get, arith, All,
}
use rathole_with_proxy.Config.{default_server}
use rathole_with_proxy.Watcher.{ConfigChange, ServerServiceChange}
use rathole_with_proxy.MultiMap.{key1}
use rathole_with_proxy.MultiMap.Table.{item_of, without, table_insert}
use rathole_with_proxy.Protocol.{read_auth, read_hello}
use rathole_with_proxy.Protocol.Stream.{Conn, ok, read_exact, write_all, flush, ◌>>=◌}
use rathole_with_proxy.Server.{ControlChannelHandle, ControlChannelMap, authenticate}
use rathole_with_proxy.Server.Run.{
  Backoff, Task, Event, Running, run, step, run_nth, run_task, begin,
}
use rathole_with_proxy.Server.Run.Services.{InStepAt, run-InStep}
use rathole_with_proxy.Server.Run.Opened.{Proved}
use rathole_with_proxy.Server.Run.Proved.{accepts, run-Proved}
use rathole_with_proxy.Client.Agreement.{client_sends}
use rathole_with_proxy.Server.Run.Stale.{run-deleted}
use rathole_with_proxy.Tests.Wire.{codec}
use rathole_with_proxy.Tests.Sessions.{
  web_client, handle, web, web_digest, nonce, session_key, services, channels,
}

abbrev pub constant : Backoff
constant = record { State = ℕ; next_backoff = λ s. some (100, s); reset = λ s. 0 }

-- A client that sends the proof of its token.
abbrev proving : Conn
proving = record { incoming = session_key; outgoing = []; writes = 4 }

abbrev running : ControlChannelMap → Running codec constant
running c = record {
  server = record {
    config = record default_server { services = (codes "web", web) ∷ [] };
    services = services;
    control_channels = c;
  };
  tasks = Task.waiting nonce web_digest web proving ∷ [];
  backoff = 0;
}

abbrev deletion : Event
deletion =
    Event.update (some (ConfigChange.server_change (ServerServiceChange.delete (codes "web"))))

-- The handshake ends before the service is deleted.
abbrev calm : List Event
calm = Event.turn 0 ∷ deletion ∷ []

run-InStep_example : InStepAt codec constant (run codec constant calm (running []))
unfolding step get
run-InStep_example =
    run-InStep codec constant calm (running []) (tt, (tt, tt)) ((tt, tt), tt, (refl, tt))

accepted :
    (authenticate codec nonce web_digest web web.token
      (record { conn = proving; channels = without key1 web_digest channels })).1
    ≡ ok tt
unfolding ◌>>=◌ write_all flush read_auth read_exact
accepted = refl

run-deleted_example :
    let after = run codec constant (deletion ∷ Event.turn 0 ∷ []) (running channels) in
    (get web_digest after.server.services ≡ none)
    × ((h : ControlChannelHandle) × (item_of key1 web_digest after.server.control_channels
          ≡ some (web_digest, session_key, h))
        × (h.service ≡ web))
unfolding item_of
run-deleted_example =
    run-deleted codec constant (codes "web") (codes "abc") nonce web proving [] (running channels)
      refl refl ((((λ e. ground arith), tt), (tt, tt)), (((λ e. ground arith), tt), (tt, tt))) refl
      accepted

abbrev empty : Running codec constant
empty = record {
  server = record {
    config = record default_server { services = (codes "web", web) ∷ [] };
    services = services;
    control_channels = [];
  };
  tasks = [];
  backoff = 0;
}

-- A client that does the whole handshake.
abbrev client : Conn
client = record {
  incoming = client_sends codec web_client (codes "abc") nonce;
  outgoing = [];
  writes = 4;
}

abbrev arrival : List Event
arrival = Event.accepted (some (nonce, client)) ∷ Event.turn 0 ∷ Event.turn 0 ∷ []

one_channel :
    (run codec constant arrival empty).server.control_channels
    ≡ (web_digest, session_key, handle) ∷ []
unfolding run step run_nth run_task begin get without table_insert item_of ◌>>=◌ read_hello
    write_all flush read_auth read_exact
one_channel = refl

run-Proved_example :
    All (Proved codec (accepts arrival)) (run codec constant arrival empty).server.control_channels
run-Proved_example = run-Proved codec constant arrival empty refl refl
