-- ===== src/Client/Forwarders/Body.antt =====
-- One forwarder (rathole/src/client.rs: run_udp_forwarder).
use rathole_with_proxy.Base.{
  ℕ, ◌≤◌, ◌≡◌, refl, ap, ◌∙◌, Bool, true, false, List, [], ◌∷◌, ◌++◌, Bytes, Eq, take, length, map,
  All, arith, length-take,
}
use mathlib.Core.List.{append-nil, append_assoc}
use rathole_with_proxy.Protocol.{UdpTraffic}
use rathole_with_proxy.Server.Udp.{udp_buffer_size}
use rathole_with_proxy.Client.Forwarders.{Forwarders, end_forwarder}

-- What its `select!` meets: a datagram of the server (`sent` is whether the socket takes it) or the end
-- of the channel, a datagram of the service (`queued` is whether the channel takes it) or an error
-- of the socket, or no traffic for UDP_TIMEOUT.
pub data Event : Type 0 where
  inbound : (sent : Bool) → Bytes → Event
  channel_closed socket_error idle : Event
  outbound : (queued : Bool) → Bytes → Event

-- What the service has got, and what has gone to the server.
pub record Forwarder (A : Type 0) : Type 0 where
  pub to_service : List Bytes
  pub to_server : List (UdpTraffic A)

-- How it stands: a `break` or a `?`.
pub data Exit : Type 0 where
  running broke failed : Exit

module _ {A : Type 0} (from : A) where
  -- The buffer cuts a datagram of the service.
  abbrev pub reply : Bytes → UdpTraffic A
  reply bs = record { from = from; data_bytes = take udp_buffer_size bs }

  unfoldable pub step : Event → Forwarder A → Forwarder A × Exit
  step (Event.inbound true bs) w = (record w { to_service = w.to_service ++ bs ∷ [] }, Exit.running)
  step (Event.inbound false bs) w = (w, Exit.failed)
  step Event.channel_closed w = (w, Exit.broke)
  step Event.socket_error w = (w, Exit.broke)
  step Event.idle w = (w, Exit.broke)
  step (Event.outbound true bs) w =
      (record w { to_server = w.to_server ++ reply bs ∷ [] }, Exit.running)
  step (Event.outbound false bs) w = (w, Exit.failed)

  abbrev pub go_on : (Forwarder A → Forwarder A × Exit) → Forwarder A × Exit → Forwarder A × Exit
  go_on rest (w, Exit.running) = rest w
  go_on rest (w, Exit.broke) = (w, Exit.broke)
  go_on rest (w, Exit.failed) = (w, Exit.failed)

  unfoldable pub run : List Event → Forwarder A → Forwarder A × Exit
  unfolding step
  run [] w = (w, Exit.running)
  run (e ∷ es) w = go_on (run es) (step e w)

  -- What its end means for the port map.
  abbrev pub leave : ⦃e : Eq A⦄ → Exit → ℕ → Forwarders A → Forwarders A
  leave Exit.running n s = s
  leave Exit.broke n s = end_forwarder false from n s
  leave Exit.failed n s = end_forwarder true from n s

  -- The datagrams of the two directions, while nothing fails.
  pub data Traffic : Type 0 where
    to_service to_server : Bytes → Traffic

  abbrev event : Traffic → Event
  event (to_service bs) = Event.inbound true bs
  event (to_server bs) = Event.outbound true bs

  abbrev ins : List Traffic → List Bytes
  ins [] = []
  ins (to_service bs ∷ ts) = bs ∷ ins ts
  ins (to_server bs ∷ ts) = ins ts

  abbrev outs : List Traffic → List (UdpTraffic A)
  outs [] = []
  outs (to_service bs ∷ ts) = outs ts
  outs (to_server bs ∷ ts) = reply bs ∷ outs ts

  -- Both directions keep their order, and every reply carries the address of the visitor.
  run-traffic :
      (ts : List Traffic) (w : Forwarder A)
      → run (map event ts) w ≡ (
        record { to_service = w.to_service ++ ins ts; to_server = w.to_server ++ outs ts },
        Exit.running,
      )
  unfolding run
  run-traffic [] w = rw (append-nil w.to_service, append-nil w.to_server) refl
  run-traffic (to_service bs ∷ ts) w =
      run-traffic ts (record w { to_service = w.to_service ++ bs ∷ [] })
      ∙ ap (λ l. (record { to_service = l; to_server = w.to_server ++ outs ts }, Exit.running))
          (append_assoc w.to_service (bs ∷ []) (ins ts))
  run-traffic (to_server bs ∷ ts) w =
      run-traffic ts (record w { to_server = w.to_server ++ reply bs ∷ [] })
      ∙ ap (λ l. (record { to_service = w.to_service ++ ins ts; to_server = l }, Exit.running))
          (append_assoc w.to_server (reply bs ∷ []) (outs ts))

  abbrev Short : UdpTraffic A → Type 0
  Short t = (t.from ≡ from) × (length t.data_bytes ≤ udp_buffer_size)

  outs-Short : (ts : List Traffic) → All Short (outs ts)
  outs-Short [] = tt
  outs-Short (to_service bs ∷ ts) = outs-Short ts
  outs-Short (to_server bs ∷ ts) =
      ((refl, omega (arith, length-take udp_buffer_size bs)), outs-Short ts)
