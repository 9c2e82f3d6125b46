-- ===== src/Server/Udp.antt =====
-- The UDP pool of a service (rathole/src/server.rs: run_udp_connection_pool). One data channel carries
-- the datagrams of all visitors; `A` is the type of socket addresses.
pub mod Delivery
use rathole_with_proxy.Base.{
  ℕ, Bool, true, false, Option, none, some, List, [], ◌∷◌, ◌++◌, Bytes, take, if◌then◌else◌,
}
use rathole_with_proxy.Protocol.{
  Codec, DataChannelCmd, Format, UdpHeader, UdpTraffic, write_slice, receive,
}
use rathole_with_proxy.Protocol.Stream.{Error, Result, ok, err, Conn, Io, ◌>>=◌, pure, bail}
use rathole_with_proxy.Server.Pool.{write_and_flush}

abbrev pub udp_buffer_size : ℕ
udp_buffer_size = 2048

-- The data channel, and the datagrams that have gone to visitors.
pub record UdpPool (A : Type 0) : Type 0 where
  pub conn : Conn
  pub replies : List (UdpTraffic A)

-- What the `select!` meets: a datagram of a visitor, an error of the socket, a first byte on the
-- data channel (`sent` is whether the socket takes the reply), or the signal to shut down.
pub data Event (A : Type 0) : Type 0 where
  datagram : (from : A) → Bytes → Event A
  socket_error shutdown : Event A
  readable : (sent : Bool) → Event A

module _ {A : Type 0} (format : Format (UdpHeader A)) where
  abbrev pub on_conn : {B : Type 0} → Io Conn B → Io (UdpPool A) B
  on_conn m p = let (c, r) = m p.conn in (record p { conn = c }, r)

  abbrev pub send_to : (sent : Bool) → UdpTraffic A → Io (UdpPool A) Bool
  send_to true t p = (record p { replies = p.replies ++ t ∷ [] }, ok true)
  send_to false t p = (p, err Error.broken)

  -- One turn of the loop, and whether it goes on. The socket cuts a datagram to the buffer.
  unfoldable pub step : Event A → Io (UdpPool A) Bool
  unfolding write_slice receive
  step (Event.datagram from bs) = do
    written ← on_conn (write_slice format from (take udp_buffer_size bs))
    pure true
  step Event.socket_error = bail Error.broken
  step (Event.readable sent) = do t ← on_conn (receive format); send_to sent t
  step Event.shutdown = pure false

  abbrev pub go_on : Io (UdpPool A) (Unit {0}) → Bool → Io (UdpPool A) (Unit {0})
  go_on rest true = rest
  go_on rest false = pure tt

  unfoldable pub forward : List (Event A) → Io (UdpPool A) (Unit {0})
  unfolding step
  forward [] = pure tt
  forward (e ∷ es) = do more ← step e; go_on (forward es) more

  -- With the data channels that arrive: the first one is started. `none` is a socket that could not
  -- be bound before the shutdown, or no data channel.
  unfoldable pub run_udp_connection_pool :
      Codec → (bound : Bool) → List Conn → List (Event A) → Option (UdpPool A × Result (Unit {0}))
  unfolding forward write_and_flush
  run_udp_connection_pool x false chs es = none
  run_udp_connection_pool x true [] es = none
  run_udp_connection_pool x true (ch ∷ chs) es =
      let pool : Io (UdpPool A) (Unit {0}) = do
        started ← on_conn (write_and_flush (x.data_cmd.serialize DataChannelCmd.start_forward_udp))
        forward es
      in some (pool (record { conn = ch; replies = [] }))
