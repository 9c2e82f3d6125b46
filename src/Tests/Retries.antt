-- ===== src/Tests/Retries.antt =====
-- Inputs for the listener of rathole/src/server.rs and for the running client of
-- rathole/src/client.rs.
use rathole_with_proxy.Base.{
  ℕ, ◌≡◌, refl, true, false, none, some, List, [], ◌∷◌, text_eq, codes, get, map, arith,
}
use rathole_with_proxy.Config.{ClientServiceConfig, ClientConfig, default_server}
use rathole_with_proxy.Config.Equality.{client_service_eq}
use rathole_with_proxy.Watcher.{
  ConfigChange, ClientServiceChange, client_instance, calculate_instance_config_events,
}
use rathole_with_proxy.Protocol.Stream.{Conn}
use rathole_with_proxy.Server.Pool.{run_tcp_connection_pool}
use rathole_with_proxy.Server.Listener as Listener
use rathole_with_proxy.Server.Listener.{tcp_listen_and_send}
use rathole_with_proxy.Server.Listener.Served.{tcp_listen_and_send-visitors, arrivals}
use rathole_with_proxy.Client.{start}
use rathole_with_proxy.Client.Run.{Attempt, run}
use rathole_with_proxy.Client.Run.Reload.{updates, run-start}
use rathole_with_proxy.Tests.Wire.{codec}
use rathole_with_proxy.Tests.Running.{constant}
use rathole_with_proxy.Tests.Sessions.{web_client}

-- One visitor, an error of the listener, another visitor; the signal to shut down, and one more.
abbrev coming : List (Listener.Event ℕ)
coming =
    Listener.Event.visitor 1
    ∷ Listener.Event.accept_failed
    ∷ Listener.Event.visitor 2
    ∷ Listener.Event.shutdown
    ∷ Listener.Event.visitor 3
    ∷ []

abbrev works : Conn
works = record { incoming = []; outgoing = []; writes = 9 }

abbrev fails : Conn
fails = record works { writes = 1 }

-- The ten data channels that were asked for, one of which fails.
abbrev channels : List Conn
channels = fails ∷ works ∷ works ∷ works ∷ works ∷ works ∷ works ∷ works ∷ works ∷ works ∷ []

tcp_listen_and_send-visitors_example :
    map
      (λ p. p.1)
      (run_tcp_connection_pool codec 10
        (tcp_listen_and_send constant true 5 0 coming).visitors
        channels).forwards
    ≡ 1 ∷ 2 ∷ []
unfolding tcp_listen_and_send arrivals
tcp_listen_and_send-visitors_example =
    tcp_listen_and_send-visitors codec constant 5 10 0 coming channels (λ s. λ e. absurd cc)
      (omega arith) refl (omega arith) (omega arith)

abbrev short : List Attempt
short = Attempt.failed false 7 ∷ Attempt.failed false 8 ∷ []

abbrev after_long : List Attempt
after_long = Attempt.failed false 5 ∷ Attempt.failed false 4_000_000_000 ∷ short

abbrev renamed : ClientServiceConfig
renamed = record web_client { name = codes "api" }

abbrev old : ClientConfig
old = record {
  remote_addr = codes "example.org:2333";
  default_token = none;
  prefer_ipv6 = none;
  services = (codes "web", web_client) ∷ [];
  transport = default_server.transport;
  heartbeat_timeout = 40;
  retry_interval = 1;
}

abbrev renewed : ClientConfig
renewed = record old { services = (codes "api", renamed) ∷ [] }

abbrev events : List ConfigChange
events =
    ConfigChange.client_change (ClientServiceChange.delete (codes "web"))
    ∷ ConfigChange.client_change (ClientServiceChange.add renamed)
    ∷ []

events_come : calculate_instance_config_events client_instance old renewed ≡ some events
unfolding calculate_instance_config_events get
events_come = refl

run-start_example :
    get (codes "web") (run old (updates events)).service_handles
    ≡ get (codes "web") (start renewed).service_handles
unfolding get
run-start_example =
    run-start old renewed events (codes "web") (refl, tt) (refl, tt) (refl, tt) events_come
