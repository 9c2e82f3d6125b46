-- ===== src/Client/Forwarders/Journey.antt =====
-- The datagrams of the visitors on their way to the service, through the UDP pool of the server and the
-- forwarders of the client (rathole/src/server.rs: run_udp_connection_pool; rathole/src/client.rs:
-- run_data_channel_for_udp).
use rathole_with_proxy.Base.{ℕ, ◌≡◌, List, [], ◌++◌, Bytes, Eq, map, length, All}
use rathole_with_proxy.Protocol.{Format, UdpHeader, UdpTraffic}
use rathole_with_proxy.Protocol.Stream.{ok}
use rathole_with_proxy.Protocol.Udp.{IsFormat}
use rathole_with_proxy.Server.Udp.{forward}
use rathole_with_proxy.Server.Udp.Delivery.{
  Item, event, inbounds, outbounds, frames, Fits, Short, Enough, receive_all, forward-receive_all,
}
use rathole_with_proxy.Client.Forwarders.{on_packets}
use rathole_with_proxy.Client.Forwarders.Order.{
  received, data_from, connected, none_yet, on_packets-none_yet,
}

module _ {A : Type 0} ⦃e : Eq A⦄ (f : Format (UdpHeader A)) (wf : IsFormat f) where
  -- The client reads from the data channel the datagrams that the UDP pool has written, and for each
  -- visitor one forwarder gets the data of that visitor, all of it in its order, each datagram
  -- cut to the buffer of the pool. The channel does not break, the socket takes the replies, the
  -- encoding of a header decodes and has fewer than 2^8 bytes, the client's own datagrams have
  -- fewer than 2^16 bytes, the service is there and no forwarder ends.
  pub forward-on_packets :
      (items : List (Item A)) (rest next out : Bytes) (w v : ℕ)
      → Enough f wf items w
      → All (Fits f) (outbounds items)
      → All (Short f wf) (inbounds items)
      → let (p, r) = forward f (map event items) (record {
        conn = record { incoming = frames f (outbounds items) ++ rest; outgoing = []; writes = w };
        replies = [];
      }) in
        (ts : List (UdpTraffic A)) × ((receive_all f
            (length (inbounds items))
            (record { incoming = p.conn.outgoing ++ next; outgoing = out; writes = v })).1
          ≡ ok ts)
        × ((a : A) → received a (on_packets (connected ts) none_yet) ≡ data_from a (inbounds items))
  forward-on_packets items rest next out w v enough fit short =
      let (done, replies, read) =
        forward-receive_all f wf items rest next out w v enough fit short in
      (inbounds items, read, on_packets-none_yet (inbounds items))
