-- ===== src/Client/Forwarders/Delivery.antt =====
-- Which datagrams reach a forwarder (rathole/src/client.rs).
use rathole_with_proxy.Base.{
  ℕ, ◌<◌, ◌≡◌, refl, ◌∙◌, ap, Bool, true, none, some, [], ◌∷◌, ◌++◌, get, insert, Eq, eqb,
  if◌then◌else◌, ==_refl, get-insert, Option-cases, inl, inr, arith,
}
use rathole_with_proxy.Protocol.{UdpTraffic}
use rathole_with_proxy.Client.Forwarders.{
  Forwarders, add_forwarder, ensure, hand_on, send_on, on_packet,
}

pub eqb_self : (n : ℕ) → eqb n n ≡ true
eqb_self n = ground arith

module _ {A : Type 0} ⦃e : Eq A⦄ where
  -- The forwarders of the port map receive, and their numbers are used up.
  abbrev pub Live : Forwarders A → Type 0
  Live s = (a : A) (n : ℕ) → get a s.port_map ≡ some n → (s.running n ≡ true) × (n < s.next)

  -- The state after a datagram for a forwarder that receives, and the one for a forwarder that does
  -- not.
  pub on_packet_known :
      (c : Bool) (p : UdpTraffic A) (s : Forwarders A) (n : ℕ)
      → get p.from s.port_map ≡ some n
      → on_packet c p s ≡ (
          if s.running n then record s { delivered = s.delivered ++ (n, p.data_bytes) ∷ [] } else s)
  unfolding on_packet
  on_packet_known c p s n q =
      ap (λ o. send_on p (ensure c p.from o s)) q ∙ ap (λ o. hand_on p.data_bytes o s) q

  pub on_packet_new :
      (p : UdpTraffic A) (s : Forwarders A)
      → get p.from s.port_map ≡ none
      → on_packet true p s ≡ record (add_forwarder true p.from s) {
        delivered = s.delivered ++ (s.next, p.data_bytes) ∷ [];
      }
  unfolding on_packet
  on_packet_new p s q =
      let found : get p.from (insert p.from s.next s.port_map) ≡ some s.next =
        get-insert p.from p.from s.next s.port_map
        ∙ ap (λ b. if b then some s.next else get p.from s.port_map) (==_refl p.from) in
      ap (λ o. send_on p (ensure true p.from o s)) q
      ∙ ap (λ o. hand_on p.data_bytes o (add_forwarder true p.from s)) found
      ∙ ap
          (λ b.
            if (if b then true else s.running s.next)
            then record (add_forwarder true p.from s) {
              delivered = s.delivered ++ (s.next, p.data_bytes) ∷ [];
            }
            else add_forwarder true p.from s)
          (eqb_self s.next)

  pub add_forwarder-Live : (from : A) (s : Forwarders A) → Live s → Live (add_forwarder true from s)
  add_forwarder-Live from s live a n q =
      ground (arith, get-insert from a s.next s.port_map, live a n)

  -- With the service there and all forwarders of the map running, a datagram reaches the forwarder
  -- that the map then has for its address, and all forwarders of the map still run.
  pub on_packet-Live :
      (p : UdpTraffic A) (s : Forwarders A)
      → Live s
      → (n : ℕ) × (get p.from (on_packet true p s).port_map ≡ some n)
        × ((on_packet true p s).delivered ≡ s.delivered ++ (n, p.data_bytes) ∷ [])
        × Live (on_packet true p s)
  on_packet-Live p s live = elim (Option-cases (get p.from s.port_map)) [
    | inr (n, q) ↦
        let step : on_packet true p s
            ≡ record s { delivered = s.delivered ++ (n, p.data_bytes) ∷ [] } =
          on_packet_known true p s n q
          ∙ ap
              (λ b. if b then record s { delivered = s.delivered ++ (n, p.data_bytes) ∷ [] } else s)
              (live p.from n q).0 in
        (n, rw step q, rw step refl, rw step live)
    | inl q ↦
        let step = on_packet_new p s q in
        (
          s.next,
          rw step (
              get-insert p.from p.from s.next s.port_map
              ∙ ap (λ b. if b then some s.next else get p.from s.port_map) (==_refl p.from)),
          rw step refl,
          rw step (add_forwarder-Live p.from s live),
        )
  ]
