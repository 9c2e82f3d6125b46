-- ===== src/Server/Udp/Delivery.antt =====
-- Both directions of the UDP pool (rathole/src/server.rs: run_udp_connection_pool, and the frames
-- that rathole/src/client.rs: run_data_channel_for_udp reads).
use mathlib.Core.List.{append-nil, append_assoc}
use rathole_with_proxy.Base.{
  ℕ, zero, suc, ◌-◌, ◌*◌, ◌%◌, ◌^◌, ◌≤◌, ◌<◌, ◌≡◌, refl, ap, subst, ◌∙◌, true, List, [], ◌∷◌, ◌++◌,
  map, All, Bytes, length, take, length-take, arith,
}
use rathole_with_proxy.Protocol.{Format, UdpHeader, UdpTraffic, write, write_slice, receive}
use rathole_with_proxy.Protocol.Stream.{Conn, Io, ok, ◌>>=◌, pure, bind-ok, write_all}
use rathole_with_proxy.Protocol.Udp.{IsFormat, header_of, receive-write_short}
use rathole_with_proxy.Server.Udp.{Event, udp_buffer_size, step, forward}

-- A datagram that the socket gets from a visitor, or one that the client has sent on the channel.
pub data Item (A : Type 0) : Type 0 where
  inbound outbound : UdpTraffic A → Item A

module _ {A : Type 0} where
  abbrev pub event : Item A → Event A
  event (inbound t) = Event.datagram t.from t.data_bytes
  event (outbound t) = Event.readable true

  -- What the buffer of the socket keeps of a datagram.
  abbrev pub cut : UdpTraffic A → UdpTraffic A
  cut t = record t { data_bytes = take udp_buffer_size t.data_bytes }

  abbrev pub inbounds : List (Item A) → List (UdpTraffic A)
  inbounds [] = []
  inbounds (inbound t ∷ items) = cut t ∷ inbounds items
  inbounds (outbound t ∷ items) = inbounds items

  abbrev pub outbounds : List (Item A) → List (UdpTraffic A)
  outbounds [] = []
  outbounds (inbound t ∷ items) = outbounds items
  outbounds (outbound t ∷ items) = t ∷ outbounds items

pub three : (w k : ℕ) → 3 * suc k ≤ w → (n : ℕ) × (w ≡ suc (suc (suc n)))
three w k h = (w - 3, omega arith)

module _ {A : Type 0} (f : Format (UdpHeader A)) where
  -- The bytes of a datagram on the channel.
  abbrev pub frame : UdpTraffic A → Bytes
  frame t =
      (length (f.serialize (header_of t)) % 2 ^ 8) ∷ (f.serialize (header_of t) ++ t.data_bytes)

  abbrev pub frames : List (UdpTraffic A) → Bytes
  frames [] = []
  frames (t ∷ ts) = frame t ++ frames ts

  -- It fits into the fields for its lengths.
  abbrev pub Fits : UdpTraffic A → Type 0
  Fits t = (length (f.serialize (header_of t)) < 2 ^ 8) × (length t.data_bytes < 2 ^ 16)

  -- The client's reader, for a number of datagrams.
  unfoldable pub receive_all : ℕ → Io Conn (List (UdpTraffic A))
  receive_all zero = pure []
  receive_all (suc n) = do t ← receive f; ts ← receive_all n; pure (t ∷ ts)

  append-nest :
      (o : Bytes) (b : ℕ) (v bs : Bytes) → ((o ++ b ∷ []) ++ v) ++ bs ≡ o ++ (b ∷ (v ++ bs))
  append-nest o b v bs = append_assoc (o ++ b ∷ []) v bs ∙ append_assoc o (b ∷ []) (v ++ bs)

  pub write-frame :
      (t : UdpTraffic A) (i o : Bytes) (n : ℕ)
      → write f t (record { incoming = i; outgoing = o; writes = suc (suc (suc n)) })
        ≡ (record { incoming = i; outgoing = o ++ frame t; writes = n }, ok tt)
  unfolding write write_all ◌>>=◌
  write-frame t i o n =
      ap (λ p. (record { incoming = i; outgoing = p; writes = n }, ok tt))
        (append-nest o _ (f.serialize (header_of t)) t.data_bytes)

  module _ (format : IsFormat f) where
    receive-frame :
        (t : UdpTraffic A) (rest out : Bytes) (w : ℕ)
        → Fits t
        → receive f (record { incoming = frame t ++ rest; outgoing = out; writes = w })
          ≡ (record { incoming = rest; outgoing = out; writes = w }, ok t)
    receive-frame t rest out w (h, d) =
        subst
          (λ p.
            receive f (record { incoming = p.0.outgoing ++ rest; outgoing = out; writes = w })
            ≡ (record { incoming = rest; outgoing = out; writes = w }, ok t))
          (write-frame t [] [] 0) (receive-write_short f format t [] rest out 0 w h d)

    receive_all-frames :
        (ts : List (UdpTraffic A)) (rest out : Bytes) (w : ℕ)
        → All Fits ts
        → receive_all
            (length ts)
            (record { incoming = frames ts ++ rest; outgoing = out; writes = w })
          ≡ (record { incoming = rest; outgoing = out; writes = w }, ok ts)
    unfolding receive_all
    receive_all-frames [] rest out w fit = refl
    receive_all-frames (t ∷ ts) rest out w fit =
        let e : frames (t ∷ ts) ++ rest ≡ frame t ++ (frames ts ++ rest) =
          append_assoc (frame t) (frames ts) rest in
        rw e (
          bind-ok (receive f) _ _ _ _ (receive-frame t (frames ts ++ rest) out w fit.0)
          ∙ bind-ok (receive_all (length ts)) _ _ _ _ (receive_all-frames ts rest out w fit.1))

    -- Enough writes for the datagrams that go to the client, three for each.
    abbrev pub Enough : List (Item A) → ℕ → Type 0
    Enough items w = 3 * length (inbounds items) ≤ w

    step-inbound :
        (t : UdpTraffic A) (i o : Bytes) (n : ℕ) (sent : List (UdpTraffic A))
        → step f (event (inbound t)) (record {
          conn = record { incoming = i; outgoing = o; writes = suc (suc (suc n)) };
          replies = sent;
        })
          ≡ (
            record {
              conn = record { incoming = i; outgoing = o ++ frame (cut t); writes = n };
              replies = sent;
            },
            ok true,
          )
    unfolding step write_slice write_all ◌>>=◌
    step-inbound t i o n sent =
        ap
          (λ p. (
            record { conn = record { incoming = i; outgoing = p; writes = n }; replies = sent },
            ok true,
          ))
          (append-nest o _ (f.serialize (header_of (cut t))) (cut t).data_bytes)

    forward-inbound :
        (t : UdpTraffic A) (es : List (Event A)) (i o : Bytes) (n : ℕ) (sent : List (UdpTraffic A))
        → forward f (event (inbound t) ∷ es) (record {
          conn = record { incoming = i; outgoing = o; writes = suc (suc (suc n)) };
          replies = sent;
        })
          ≡ forward f es (record {
            conn = record { incoming = i; outgoing = o ++ frame (cut t); writes = n };
            replies = sent;
          })
    unfolding forward
    forward-inbound t es i o n sent =
        bind-ok (step f (event (inbound t))) _ _ _ _ (step-inbound t i o n sent)

    forward-outbound :
        (t : UdpTraffic A) (es : List (Event A)) (i o : Bytes) (n : ℕ) (sent : List (UdpTraffic A))
        → Fits t
        → forward f (event (outbound t) ∷ es) (record {
          conn = record { incoming = frame t ++ i; outgoing = o; writes = n };
          replies = sent;
        })
          ≡ forward f es (record {
            conn = record { incoming = i; outgoing = o; writes = n };
            replies = sent ++ t ∷ [];
          })
    unfolding forward step ◌>>=◌
    forward-outbound t es i o n sent fit = rw (receive-frame t i o n fit) refl

    forward-items :
        (items : List (Item A)) (rest o : Bytes) (w : ℕ) (sent : List (UdpTraffic A))
        → Enough items w
        → All Fits (outbounds items)
        → (v : ℕ) × (forward f (map event items) (record {
          conn = record { incoming = frames (outbounds items) ++ rest; outgoing = o; writes = w };
          replies = sent;
        })
            ≡ (
              record {
                conn = record {
                  incoming = rest;
                  outgoing = o ++ frames (inbounds items);
                  writes = v;
                };
                replies = sent ++ outbounds items;
              },
              ok tt,
            ))
    unfolding forward
    forward-items [] rest o w sent enough fit = (w, simp append-nil)
    forward-items (inbound t ∷ items) rest o w sent enough fit =
        let (n, q) = three w (length (inbounds items)) enough in
        let (v, p) = forward-items items rest (o ++ frame (cut t)) n sent (omega (arith, q)) fit in
        (
          v,
          rw (q, forward-inbound t (map event items) _ o n sent)
              (p
                ∙ ap
                    (λ c. (
                      record {
                        conn = record { incoming = rest; outgoing = c; writes = v };
                        replies = sent ++ outbounds items;
                      },
                      ok tt,
                    ))
                    (append_assoc o (frame (cut t)) (frames (inbounds items)))),
        )
    forward-items (outbound t ∷ items) rest o w sent enough fit =
        let (v, p) = forward-items items rest o w (sent ++ t ∷ []) enough fit.1 in
        let e : frames (t ∷ outbounds items) ++ rest
            ≡ frame t ++ (frames (outbounds items) ++ rest) =
          append_assoc (frame t) (frames (outbounds items)) rest in
        (
          v,
          rw (e, forward-outbound t (map event items) _ o w sent fit.0)
              (p
                ∙ ap
                    (λ c. (
                      record {
                        conn = record {
                          incoming = rest;
                          outgoing = o ++ frames (inbounds items);
                          writes = v;
                        };
                        replies = c;
                      },
                      ok tt,
                    ))
                    (append_assoc sent (t ∷ []) (outbounds items))),
        )

    -- The encoding of the header has fewer than 2^8 bytes.
    abbrev pub Short : UdpTraffic A → Type 0
    Short t = length (f.serialize (header_of t)) < 2 ^ 8

    inbounds-Fits : (items : List (Item A)) → All Short (inbounds items) → All Fits (inbounds items)
    inbounds-Fits [] s = tt
    inbounds-Fits (outbound t ∷ items) s = inbounds-Fits items s
    inbounds-Fits (inbound t ∷ items) s =
        ((s.0, omega (arith, length-take udp_buffer_size t.data_bytes)), inbounds-Fits items s.1)

    -- However the datagrams of the two directions mix, the visitors get those that the client has
    -- sent, in their order, and the client reads from the data channel those of the visitors, in
    -- their order and cut to the buffer of the socket. The channel does not break, the socket
    -- takes the replies, the encoding of a header decodes and has fewer than 2^8 bytes, and the
    -- client sends datagrams of fewer than 2^16 bytes.
    pub forward-receive_all :
        (items : List (Item A)) (rest next out : Bytes) (w v : ℕ)
        → Enough items w
        → All Fits (outbounds items)
        → All Short (inbounds items)
        → let (p, r) = forward f (map event items) (record {
          conn = record { incoming = frames (outbounds items) ++ rest; outgoing = []; writes = w };
          replies = [];
        }) in
          (r ≡ ok tt)
          × (p.replies ≡ outbounds items)
          × ((receive_all
                (length (inbounds items))
                (record { incoming = p.conn.outgoing ++ next; outgoing = out; writes = v })).1
              ≡ ok (inbounds items))
    forward-receive_all items rest next out w v enough fit short =
        let (n, q) = forward-items items rest [] w [] enough fit in
        let read = receive_all-frames (inbounds items) next out v (inbounds-Fits items short) in
        rw q (refl, refl, ap (λ z. z.1) read)
