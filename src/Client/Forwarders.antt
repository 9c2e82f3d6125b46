-- ===== src/Client/Forwarders.antt =====
-- The forwarders of a UDP data channel (rathole/src/client.rs: run_data_channel_for_udp,
-- run_udp_forwarder): one for each address that has sent lately, found by the port map. A forwarder
-- is a number; `A` is the type of socket addresses.
pub mod Delivery
pub mod Order
pub mod Lost
pub mod Journey
pub mod Body
pub mod Outbound
use rathole_with_proxy.Base.{
  ℕ, suc, Bool, true, false, Option, none, some, List, [], ◌∷◌, ◌++◌, Bytes, HashMap, get, insert,
  remove, Eq, eqb, if◌then◌else◌,
}
use rathole_with_proxy.Protocol.{UdpTraffic}

-- The port map, which forwarders still receive, and the datagrams that have reached one.
pub record Forwarders (A : Type 0) : Type 0 where
  pub port_map : HashMap A ℕ
  pub running : ℕ → Bool
  pub next : ℕ
  pub delivered : List (ℕ × Bytes)

abbrev pub set_running : ℕ → Bool → (ℕ → Bool) → ℕ → Bool
set_running n b running m = if eqb n m then b else running m

module _ {A : Type 0} ⦃e : Eq A⦄ where
  -- A new forwarder for an address; `connected` is whether udp_connect finds the service.
  abbrev pub add_forwarder : (connected : Bool) → A → Forwarders A → Forwarders A
  add_forwarder false from s = s
  add_forwarder true from s = record s {
    port_map = insert from s.next s.port_map;
    running = set_running s.next true s.running;
    next = suc s.next;
  }

  abbrev pub ensure : (connected : Bool) → A → Option ℕ → Forwarders A → Forwarders A
  ensure connected from none s = add_forwarder connected from s
  ensure connected from (some n) s = s

  -- A datagram for the forwarder of the map; one that has ended receives nothing.
  abbrev pub hand_on : Bytes → Option ℕ → Forwarders A → Forwarders A
  hand_on bs none s = s
  hand_on bs (some n) s =
      if s.running n then record s { delivered = s.delivered ++ (n, bs) ∷ [] } else s

  abbrev pub send_on : UdpTraffic A → Forwarders A → Forwarders A
  send_on packet s = hand_on packet.data_bytes (get packet.from s.port_map) s

  -- One turn of the loop of run_data_channel_for_udp.
  unfoldable pub on_packet : (connected : Bool) → UdpTraffic A → Forwarders A → Forwarders A
  on_packet connected packet s =
      send_on packet (ensure connected packet.from (get packet.from s.port_map) s)

  -- A forwarder ends: after a break (the channel or the socket ended, or no traffic for UDP_TIMEOUT)
  -- it leaves the map, but after an error that `?` returns it does not.
  unfoldable pub end_forwarder : (by_error : Bool) → A → ℕ → Forwarders A → Forwarders A
  end_forwarder false from n s = record s {
    port_map = remove from s.port_map;
    running = set_running n false s.running;
  }
  end_forwarder true from n s = record s { running = set_running n false s.running }

  abbrev pub on_packets : List (Bool × UdpTraffic A) → Forwarders A → Forwarders A
  on_packets [] s = s
  on_packets ((connected, p) ∷ ps) s = on_packets ps (on_packet connected p s)
