-- ===== src/Client/Forwarders/Outbound.antt =====
-- The datagrams of the service on their way to the visitors (rathole/src/client.rs: the task that
-- run_data_channel_for_udp spawns; rathole/src/server.rs: run_udp_connection_pool).
use mathlib.Core.List.{append-nil, append_assoc}
use rathole_with_proxy.Base.{
  ℕ, ◌*◌, ◌≤◌, ◌≡◌, refl, sym, subst, ap, ◌∙◌, List, [], ◌∷◌, ◌++◌, Bytes, map, length, All, arith,
}
use rathole_with_proxy.Protocol.{Format, UdpHeader, UdpTraffic, write}
use rathole_with_proxy.Protocol.Stream.{Conn, Io, Result, ok, ◌>>=◌, pure, bind-ok}
use rathole_with_proxy.Protocol.Udp.{IsFormat}
use rathole_with_proxy.Server.Udp.{forward}
use rathole_with_proxy.Server.Udp.Delivery.{
  Item, outbound, event, outbounds, frame, frames, Fits, three, write-frame, forward-receive_all,
  Enough, Short, inbounds,
}

module _ {A : Type 0} (f : Format (UdpHeader A)) where
  -- It stops at the first datagram that cannot be written.
  unfoldable pub forward_outbound : List (UdpTraffic A) → Io Conn (Unit {0})
  unfolding write
  forward_outbound [] = pure tt
  forward_outbound (t ∷ ts) = do written ← write f t; forward_outbound ts

  forward_outbound-frames :
      (ts : List (UdpTraffic A)) (i o : Bytes) (w : ℕ)
      → 3 * length ts ≤ w
      → (n : ℕ) × (forward_outbound ts (record { incoming = i; outgoing = o; writes = w })
          ≡ (record { incoming = i; outgoing = o ++ frames f ts; writes = n }, ok tt))
  unfolding forward_outbound
  forward_outbound-frames [] i o w h =
      (w, ap (λ p. (record { incoming = i; outgoing = p; writes = w }, ok tt)) (sym (append-nil o)))
  forward_outbound-frames (t ∷ ts) i o w h =
      let (v, q) = three w (length ts) h in
      let (n, e) = forward_outbound-frames ts i (o ++ frame f t) v (omega arith) in
      (
        n,
        ap (λ k. forward_outbound (t ∷ ts) (record { incoming = i; outgoing = o; writes = k })) q
            ∙ bind-ok (write f t) _ _ _ _ (write-frame f t i o v)
            ∙ e
            ∙ ap (λ p. (record { incoming = i; outgoing = p; writes = n }, ok tt))
                (append_assoc o (frame f t) (frames f ts)),
      )

  outbounds-map : (ts : List (UdpTraffic A)) → outbounds (map outbound ts) ≡ ts
  outbounds-map [] = refl
  outbounds-map (t ∷ ts) = ap (◌∷◌ t) (outbounds-map ts)

  inbounds-map : (ts : List (UdpTraffic A)) → inbounds (map outbound ts) ≡ []
  inbounds-map [] = refl
  inbounds-map (t ∷ ts) = inbounds-map ts

  abbrev replies_of : List (Item A) → Bytes → List (UdpTraffic A)
  replies_of items incoming =
      (forward f (map event items) (record {
        conn = record { incoming = incoming; outgoing = []; writes = 0 };
        replies = [];
      })).0.replies

  -- The visitors get the datagrams of the service, all in their order, when the UDP pool reads what
  -- the client has written. Neither connection breaks, the socket takes the replies, and the
  -- lengths fit into their fields.
  pub forward_outbound-forward :
      IsFormat f
      → (ts : List (UdpTraffic A)) (i rest : Bytes) (w : ℕ) → 3 * length ts ≤ w
      → All (Fits f) ts
      → let c = (forward_outbound ts (record { incoming = i; outgoing = []; writes = w })).0 in
        (forward f (map event (map outbound ts)) (record {
          conn = record { incoming = c.outgoing ++ rest; outgoing = []; writes = 0 };
          replies = [];
        })).0.replies
        ≡ ts
  forward_outbound-forward wf ts i rest w h fit =
      let items = map outbound ts in
      let (n, q) = forward_outbound-frames ts i [] w h in
      let enough : Enough f wf items 0 =
        subst (λ us. 3 * length us ≤ 0) (sym (inbounds-map ts)) (omega arith) in
      let short : All (Short f wf) (inbounds items) =
        subst (All (Short f wf)) (sym (inbounds-map ts)) tt in
      let fits : All (Fits f) (outbounds items) =
        subst (All (Fits f)) (sym (outbounds-map ts)) fit in
      let read = forward-receive_all f wf items rest [] [] 0 0 enough fits short in
      ap (λ (c : Conn × Result (Unit {0})). replies_of items (c.0.outgoing ++ rest)) q
      ∙ ap (λ us. replies_of items (frames f us ++ rest)) (sym (outbounds-map ts))
      ∙ read.1
      ∙ outbounds-map ts
