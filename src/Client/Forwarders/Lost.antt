-- ===== src/Client/Forwarders/Lost.antt =====
-- The datagrams for a forwarder that has ended by an error (rathole/src/client.rs:
-- run_data_channel_for_udp, run_udp_forwarder).
use rathole_with_proxy.Base.{
  ℕ, ◌<◌, ◌≡◌, ◌≢◌, refl, sym, ◌∙◌, ap, Bool, true, false, none, some, List, [], ◌∷◌, ◌++◌, Bytes,
  get, Eq, eqb, if◌then◌else◌, ==_iff, get-insert, Option-cases, Bool-cases, inl, inr, arith, subst,
}
use mathlib.Core.List.{append-nil}
use rathole_with_proxy.Protocol.{UdpTraffic}
use rathole_with_proxy.Client.Forwarders.{
  Forwarders, add_forwarder, on_packet, end_forwarder, on_packets,
}
use rathole_with_proxy.Client.Forwarders.Delivery.{on_packet_known, on_packet_new, eqb_self}
use rathole_with_proxy.Client.Forwarders.Order.{data_to, data_to-append}

other-data_to :
    (n m : ℕ) (bs : Bytes) (ds : List (ℕ × Bytes)) (seen : List Bytes)
    → m ≢ n
    → data_to n ds ≡ seen
    → data_to n (ds ++ (m, bs) ∷ []) ≡ seen
other-data_to n m bs ds seen h q =
    data_to-append n m bs ds
    ∙ ap (λ b. data_to n ds ++ (if b then bs ∷ [] else []))
        (let r : eqb m n ≡ false = ground arith in r)
    ∙ append-nil (data_to n ds)
    ∙ q

module _ {A : Type 0} ⦃e : Eq A⦄ where
  -- The map has the forwarder `n` for an address, `n` does not receive, and what it has received.
  record Lost (from : A) (n : ℕ) (seen : List Bytes) (s : Forwarders A) : Type 0 where
    known : get from s.port_map ≡ some n
    ended : s.running n ≡ false
    used : n < s.next
    same : data_to n s.delivered ≡ seen

  known-Lost :
      (from : A) (n : ℕ) (seen : List Bytes) (p : UdpTraffic A) (m : ℕ) (s : Forwarders A)
      → Lost from n seen s
      → Lost from n seen (
          if s.running m then record s { delivered = s.delivered ++ (m, p.data_bytes) ∷ [] } else s)
  known-Lost from n seen p m s i = elim (Bool-cases (s.running m)) [
    | inl q ↦
        let other : m ≢ n = λ r. let w = subst (λ k. s.running k ≡ true) r q in cc in
        rw q (record {
          known = i.known;
          ended = i.ended;
          used = i.used;
          same = other-data_to n m p.data_bytes s.delivered seen other i.same;
        })
    | inr q ↦ rw q i
  ]

  new-Lost :
      (from : A) (n : ℕ) (seen : List Bytes) (p : UdpTraffic A) (s : Forwarders A)
      → Lost from n seen s
      → get p.from s.port_map ≡ none
      → Lost from n seen (record (add_forwarder true p.from s) {
        delivered = s.delivered ++ (s.next, p.data_bytes) ∷ [];
      })
  new-Lost from n seen p s i q = record {
    known =
        ground (arith, get-insert p.from from s.next s.port_map, i.known, q, ==_iff p.from from);
    ended = ground (arith, i.ended, i.used);
    used = ground (arith, i.used);
    same = other-data_to n s.next p.data_bytes s.delivered seen (omega (arith, i.used)) i.same;
  }

  none-Lost :
      (from : A) (n : ℕ) (seen : List Bytes) (c : Bool) (p : UdpTraffic A) (s : Forwarders A)
      → Lost from n seen s
      → get p.from s.port_map ≡ none
      → Lost from n seen (on_packet c p s)
  unfolding on_packet
  none-Lost from n seen false p s i q = rw (q, q) i
  none-Lost from n seen true p s i q =
      subst (Lost from n seen) (sym (on_packet_new p s q)) (new-Lost from n seen p s i q)

  on_packet-Lost :
      (from : A) (n : ℕ) (seen : List Bytes) (c : Bool) (p : UdpTraffic A) (s : Forwarders A)
      → Lost from n seen s
      → Lost from n seen (on_packet c p s)
  on_packet-Lost from n seen c p s i = elim (Option-cases (get p.from s.port_map)) [
    | inl q ↦ none-Lost from n seen c p s i q
    | inr (m, q) ↦
        subst (Lost from n seen) (sym (on_packet_known c p s m q)) (known-Lost from n seen p m s i)
  ]

  on_packets-Lost :
      (from : A) (n : ℕ) (seen : List Bytes) (ps : List (Bool × UdpTraffic A)) (s : Forwarders A)
      → Lost from n seen s
      → Lost from n seen (on_packets ps s)
  on_packets-Lost from n seen [] s i = i
  on_packets-Lost from n seen ((c, p) ∷ ps) s i =
      on_packets-Lost from n seen ps (on_packet c p s) (on_packet-Lost from n seen c p s i)

  -- A forwarder that ends by an error stays in the map for its address, through any later datagrams
  -- of any addresses, whether or not the service is there for new ones; as long as no other
  -- forwarder ends, the map goes on giving it for this address, and nothing more reaches it.
  pub on_packets-lost :
      (from : A) (n : ℕ) (ps : List (Bool × UdpTraffic A)) (s : Forwarders A)
      → get from s.port_map ≡ some n
      → n < s.next
      → let s' = on_packets ps (end_forwarder true from n s) in
        (get from s'.port_map ≡ some n) × (data_to n s'.delivered ≡ data_to n s.delivered)
  unfolding end_forwarder
  on_packets-lost from n ps s q less =
      let i =
        on_packets-Lost from n (data_to n s.delivered) ps (end_forwarder true from n s) (record {
          known = q;
          ended = ap (λ b. if b then false else s.running n) (eqb_self n);
          used = less;
          same = refl;
        }) in
      (i.known, i.same)
