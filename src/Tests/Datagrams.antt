-- ===== src/Tests/Datagrams.antt =====
-- Inputs for the UDP forwarders of rathole/src/client.rs and the UDP pool of rathole/src/server.rs.
use rathole_with_proxy.Base.{
  ℕ, ◌≡◌, refl, ◌++◌, List, length, map, arith, Bool, true, some, [], ◌∷◌, get, nat_eq,
}
use rathole_with_proxy.Protocol.{UdpTraffic}
use rathole_with_proxy.Protocol.Stream.{ok}
use rathole_with_proxy.Server.Udp.{forward}
use rathole_with_proxy.Server.Udp.Delivery.{
  Item, inbound, outbound, event, inbounds, outbounds, frames, receive_all, forward-receive_all,
}
use rathole_with_proxy.Tests.Wire.{header, header-IsFormat}
use rathole_with_proxy.Client.Forwarders.{Forwarders, on_packets, end_forwarder}
use rathole_with_proxy.Client.Forwarders.Lost.{on_packets-lost}
use rathole_with_proxy.Client.Forwarders.Order.{data_to, received, data_from, connected, none_yet}
use rathole_with_proxy.Client.Forwarders.Journey.{forward-on_packets}

abbrev packet : UdpTraffic ℕ
packet = record { from = 7; data_bytes = 1 ∷ 2 ∷ [] }

abbrev one : Forwarders ℕ
one = record { port_map = (7, 0) ∷ []; running = λ n. true; next = 1; delivered = (0, 9 ∷ []) ∷ [] }

-- Two datagrams of 7, whose forwarder has ended, and one of 8 between them.
abbrev later : List (Bool × UdpTraffic ℕ)
later = (true, packet) ∷ (true, record packet { from = 8 }) ∷ (true, packet) ∷ []

on_packets-lost_example :
    (get 7 (on_packets later (end_forwarder true 7 0 one)).port_map ≡ some 0)
    × (data_to 0 (on_packets later (end_forwarder true 7 0 one)).delivered ≡ (9 ∷ []) ∷ [])
unfolding get data_to
on_packets-lost_example = on_packets-lost 7 0 later one refl (omega arith)

abbrev mixed : List (Item ℕ)
mixed = inbound packet ∷ outbound (record { from = 9; data_bytes = 3 ∷ [] }) ∷ inbound packet ∷ []

forward-on_packets_example :
    let (p, r) = forward header (map event mixed) (record {
      conn = record {
        incoming = frames header (outbounds mixed) ++ 0 ∷ [];
        outgoing = [];
        writes = 6;
      };
      replies = [];
    }) in
    (ts : List (UdpTraffic ℕ)) × ((receive_all header
        (length (inbounds mixed))
        (record { incoming = p.conn.outgoing ++ []; outgoing = []; writes = 0 })).1
      ≡ ok ts)
    × ((a : ℕ) → received a (on_packets (connected ts) none_yet) ≡ data_from a (inbounds mixed))
forward-on_packets_example =
    forward-on_packets header header-IsFormat mixed (0 ∷ []) [] [] 6 0 (omega arith)
      ((omega arith, omega arith), tt) (omega arith, (omega arith, tt))

forward-receive_all_example :
    let (p, r) = forward header (map event mixed) (record {
      conn = record {
        incoming = frames header (outbounds mixed) ++ 0 ∷ [];
        outgoing = [];
        writes = 6;
      };
      replies = [];
    }) in
    (r ≡ ok tt)
    × (p.replies ≡ outbounds mixed)
    × ((receive_all header
          (length (inbounds mixed))
          (record { incoming = p.conn.outgoing ++ []; outgoing = []; writes = 0 })).1
        ≡ ok (inbounds mixed))
forward-receive_all_example =
    forward-receive_all header header-IsFormat mixed (0 ∷ []) [] [] 6 0 (omega arith)
      ((omega arith, omega arith), tt) (omega arith, (omega arith, tt))
