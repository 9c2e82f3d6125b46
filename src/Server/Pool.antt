-- ===== src/Server/Pool.antt =====
-- The tasks of a control channel (rathole/src/server.rs: ControlChannel::run,
-- run_tcp_connection_pool).
pub mod Laws
use rathole_with_proxy.Base.{
  ℕ, zero, suc, Bool, true, false, Option, none, some, List, [], ◌∷◌, ◌++◌, Bytes, eqb,
  if◌then◌else◌,
}
use rathole_with_proxy.Protocol.{Codec, ControlChannelCmd, DataChannelCmd}
use rathole_with_proxy.Protocol.Stream.{Conn, Io, Result, ok, err, ◌>>=◌, write_all, flush}

-- helper.rs: write_and_flush
unfoldable pub write_and_flush : Bytes → Io Conn (Unit {0})
write_and_flush bs = do a ← write_all bs; flush

-- What the `select!` of ControlChannel::run meets: a request for a data channel or the end of the
-- requests, the end of a heartbeat interval, or the signal to shut down.
pub data Event : Type 0 where
  requested requests_closed elapsed shutdown : Event

module _ (x : Codec) where
  -- After a command: the loop goes on with the connection, or ends with the one that broke.
  abbrev pub go_on : (Conn → Conn) → Conn × Result (Unit {0}) → Conn
  go_on rest (c, ok u) = rest c
  go_on rest (c, err e) = c

  -- ControlChannel::run; the interval elapses only if it is not 0.
  unfoldable pub run_control_channel : (heartbeat_interval : ℕ) → List Event → Conn → Conn
  unfolding write_and_flush
  run_control_channel interval [] c = c
  run_control_channel interval (Event.requested ∷ es) c =
      go_on (run_control_channel interval es)
        (write_and_flush (x.control_cmd.serialize ControlChannelCmd.create_data_channel) c)
  run_control_channel interval (Event.requests_closed ∷ es) c = c
  run_control_channel interval (Event.elapsed ∷ es) c =
      let rest = run_control_channel interval es c in
      let beat =
        go_on (run_control_channel interval es)
          (write_and_flush (x.control_cmd.serialize ControlChannelCmd.heart_beat) c) in
      if eqb interval 0 then rest else beat
  run_control_channel interval (Event.shutdown ∷ es) c = c

  -- What run_tcp_connection_pool has done: the pairs of data channel and visitor that it forwards
  -- between, and how many more data channels it has asked for.
  pub record Pool (V : Type 0) : Type 0 where
    pub forwards : List (Conn × V)
    pub requests : ℕ

  -- A data channel that takes the command is the visitor's.
  abbrev pub forward : {V : Type 0} → Conn → V → Pool V → Pool V
  forward ch v p = record p { forwards = (ch, v) ∷ p.forwards }

  abbrev pub request : {V : Type 0} → Pool V → Pool V
  request p = record p { requests = suc p.requests }

  abbrev pub nothing : {V : Type 0} → Pool V
  nothing = record { forwards = []; requests = 0 }

  -- A request for one more data channel, which fails when the control channel is gone.
  abbrev pub request_again : {V : Type 0} → ℕ → (ℕ → Pool V) → Pool V
  request_again zero retry = nothing
  request_again (suc asks) retry = request (retry asks)

  abbrev pub choose :
      {V : Type 0} → ℕ → V → Conn × Result (Unit {0}) → Pool V → (ℕ → Pool V) → Pool V
  choose asks v (ch, ok u) next retry = forward ch v next
  choose asks v (ch, err e) next retry = request_again asks retry

  -- run_tcp_connection_pool over the data channels that arrive, with the visitors that wait; `asks`
  -- is how many more requests the control channel takes.
  unfoldable pub run_tcp_connection_pool : {V : Type 0} → ℕ → List V → List Conn → Pool V
  unfolding write_and_flush
  run_tcp_connection_pool asks [] chs = nothing
  run_tcp_connection_pool asks (v ∷ vs) [] = nothing
  run_tcp_connection_pool asks (v ∷ vs) (ch ∷ chs) =
      choose asks v (write_and_flush (x.data_cmd.serialize DataChannelCmd.start_forward_tcp) ch)
        (run_tcp_connection_pool asks vs chs) (λ n. run_tcp_connection_pool n (v ∷ vs) chs)
