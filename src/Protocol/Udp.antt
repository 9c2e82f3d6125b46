-- ===== src/Protocol/Udp.antt =====
-- Datagrams over a data channel (rathole/src/protocol.rs: impl UdpTraffic).
use rathole_with_proxy.Base.{
  ℕ, zero, suc, ap, subst, ◌∙◌, ◌%◌, ◌^◌, ◌<◌, ◌≡◌, refl, some, [], ◌∷◌, ◌++◌, Bytes, length, take,
  drop, arith, length-take,
}
use rathole_with_proxy.Protocol.{Format, UdpHeader, UdpTraffic, write, read, receive}
use rathole_with_proxy.Protocol.Stream.{
  ◌>>=◌, read_u8, ok, read_exact, read_exact-append, bind-ok, write_all,
}

-- Decoding gives back what was encoded.
abbrev pub IsFormat : {A : Type 0} → Format A → Type 0
IsFormat f = (a : _) → f.deserialize (f.serialize a) ≡ some a

-- The header that goes out with a datagram.
abbrev pub header_of : {A : Type 0} → UdpTraffic A → UdpHeader A
header_of t = record { from = t.from; len = length t.data_bytes % 2 ^ 16 }

module _ {A : Type 0} (f : Format (UdpHeader A)) where
  write-frame :
      (t : UdpTraffic A) (i o : Bytes) (n : ℕ)
      → write f t (record { incoming = i; outgoing = o; writes = suc (suc (suc n)) }) ≡ (
        record {
          incoming = i;
          outgoing =
              ((o ++ (length (f.serialize (header_of t)) % 2 ^ 8) ∷ [])
                ++ f.serialize (header_of t))
              ++ t.data_bytes;
          writes = n;
        },
        ok tt,
      )
  unfolding write write_all ◌>>=◌
  write-frame t i o n = refl

  take-drop : (n : ℕ) (xs ys : Bytes) → take n xs ++ (drop n xs ++ ys) ≡ xs ++ ys
  take-drop zero xs ys = refl
  take-drop (suc n) [] ys = refl
  take-drop (suc n) (x ∷ xs) ys = ap (◌∷◌ x) (take-drop n xs ys)

  receive-frame :
      (format : IsFormat f) (t : UdpTraffic A) (rest out : Bytes) (w : ℕ)
      → length (f.serialize (header_of t)) < 2 ^ 8
      → receive f (record {
        incoming =
            (length (f.serialize (header_of t)) % 2 ^ 8)
            ∷ (f.serialize (header_of t) ++ (t.data_bytes ++ rest));
        outgoing = out;
        writes = w;
      })
        ≡ (
          record {
            incoming = drop (length t.data_bytes % 2 ^ 16) t.data_bytes ++ rest;
            outgoing = out;
            writes = w;
          },
          ok (record {
            from = t.from;
            data_bytes = take (length t.data_bytes % 2 ^ 16) t.data_bytes;
          }),
        )
  unfolding receive read read_u8 ◌>>=◌
  receive-frame format t rest out w h =
      let n = length t.data_bytes % 2 ^ 16 in
      let a =
        read_exact-append (f.serialize (header_of t)) (t.data_bytes ++ rest) out
          (length (f.serialize (header_of t)) % 2 ^ 8) w (omega arith) in
      let b =
        read_exact-append (take n t.data_bytes) (drop n t.data_bytes ++ rest) out n w
          (omega (arith, length-take n t.data_bytes)) in
      let c =
        subst
          (λ z. read_exact n (record { incoming = z; outgoing = out; writes = w }) ≡ (
            record { incoming = drop n t.data_bytes ++ rest; outgoing = out; writes = w },
            ok (take n t.data_bytes),
          ))
          (take-drop n t.data_bytes rest) b in
      rw (a, format (header_of t)) (bind-ok (read_exact n) _ _ _ _ c)

  append-nest : (b : ℕ) (v bs rest : Bytes) → ((b ∷ v) ++ bs) ++ rest ≡ b ∷ (v ++ (bs ++ rest))
  append-nest b [] bs rest = refl
  append-nest b (x ∷ v) bs rest = ap (◌∷◌ b) (append-nest x v bs rest)

  -- A datagram that `write` sends over a connection that does not break reads back as its
  -- first bytes, as many as its length modulo 2^16; the bytes after them are left in the
  -- stream. The encoding of the header decodes, in fewer than 2^8 bytes.
  pub receive-write :
      (format : IsFormat f) (t : UdpTraffic A) (i rest out : Bytes) (n w : ℕ)
      → length (f.serialize (header_of t)) < 2 ^ 8
      → receive f (record {
        incoming =
            (write f t
              (record { incoming = i; outgoing = []; writes = suc (suc (suc n)) })).0.outgoing
            ++ rest;
        outgoing = out;
        writes = w;
      })
        ≡ (
          record {
            incoming = drop (length t.data_bytes % 2 ^ 16) t.data_bytes ++ rest;
            outgoing = out;
            writes = w;
          },
          ok (record {
            from = t.from;
            data_bytes = take (length t.data_bytes % 2 ^ 16) t.data_bytes;
          }),
        )
  receive-write format t i rest out n w h =
      rw
        (
          write-frame t i [] n,
          append-nest (length (f.serialize (header_of t)) % 2 ^ 8) (f.serialize (header_of t))
              t.data_bytes rest,
        )
        (receive-frame format t rest out w h)

  take-all : (bs : Bytes) → (take (length bs) bs ≡ bs) × (drop (length bs) bs ≡ [])
  take-all [] = (refl, refl)
  take-all (b ∷ bs) = (ap (◌∷◌ b) (take-all bs).0, (take-all bs).1)

  -- A datagram of fewer than 2^16 bytes comes back whole, and nothing of it is left in the
  -- stream. The encoding of the header decodes, in fewer than 2^8 bytes, and the connection
  -- does not break.
  pub receive-write_short :
      (format : IsFormat f) (t : UdpTraffic A) (i rest out : Bytes) (n w : ℕ)
      → length (f.serialize (header_of t)) < 2 ^ 8
      → length t.data_bytes < 2 ^ 16
      → receive f (record {
        incoming =
            (write f t
              (record { incoming = i; outgoing = []; writes = suc (suc (suc n)) })).0.outgoing
            ++ rest;
        outgoing = out;
        writes = w;
      })
        ≡ (record { incoming = rest; outgoing = out; writes = w }, ok t)
  receive-write_short format t i rest out n w h short =
      let fits : length t.data_bytes % 2 ^ 16 ≡ length t.data_bytes = omega arith in
      receive-write format t i rest out n w h
      ∙ rw (fits, (take-all t.data_bytes).0, (take-all t.data_bytes).1) refl
