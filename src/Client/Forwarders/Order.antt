-- ===== src/Client/Forwarders/Order.antt =====
-- The order of the datagrams of one visitor (rathole/src/client.rs: run_data_channel_for_udp).
use rathole_with_proxy.Base.{
  ℕ, ◌<◌, ◌≡◌, ◌≢◌, refl, sym, ◌∙◌, ap, subst, Bool, true, false, Option, none, some, List, [], ◌∷◌,
  ◌++◌, Bytes, get, Eq, map, eqb, if◌then◌else◌, ◌==◌, ==_iff, get-insert, Option-cases, Bool-cases,
  inl, inr, arith, All, suc,
}
use mathlib.Core.List.{append-nil, append_assoc}
use rathole_with_proxy.Protocol.{UdpTraffic}
use rathole_with_proxy.Client.Forwarders.{Forwarders, add_forwarder, on_packet, on_packets}
use rathole_with_proxy.Client.Forwarders.Delivery.{
  Live, on_packet_known, on_packet_new, add_forwarder-Live, eqb_self,
}

-- The datagrams that have reached a forwarder.
unfoldable pub data_to : ℕ → List (ℕ × Bytes) → List Bytes
data_to n [] = []
data_to n ((m, bs) ∷ ds) = let rest = data_to n ds in if eqb m n then bs ∷ rest else rest

abbrev pub data_to_some : Option ℕ → List (ℕ × Bytes) → List Bytes
data_to_some none ds = []
data_to_some (some n) ds = data_to n ds

pub data_to-append :
    (n m : ℕ) (bs : Bytes) (ds : List (ℕ × Bytes))
    → data_to n (ds ++ (m, bs) ∷ []) ≡ data_to n ds ++ (if eqb m n then bs ∷ [] else [])
unfolding data_to
data_to-append n m bs [] = ground arith
data_to-append n m bs ((k, cs) ∷ ds) = ground (arith, data_to-append n m bs ds)

data_to-fresh : (n : ℕ) (ds : List (ℕ × Bytes)) → All (λ d. d.0 < n) ds → data_to n ds ≡ []
unfolding data_to
data_to-fresh n [] h = refl
data_to-fresh n ((m, bs) ∷ ds) h = ground (arith, h.0, data_to-fresh n ds h.1)

Used-append :
    (k : ℕ) (d : ℕ × Bytes) (ds : List (ℕ × Bytes))
    → All (λ d. d.0 < k) ds
    → d.0 < k
    → All (λ d. d.0 < k) (ds ++ d ∷ [])
Used-append k d [] h l = (l, tt)
Used-append k d (c ∷ ds) h l = (h.0, Used-append k d ds h.1 l)

Used-suc : (k l : ℕ) (ds : List (ℕ × Bytes)) → k < l → All (λ d. d.0 < k) ds → All (λ d. d.0 < l) ds
Used-suc k l [] h a = tt
Used-suc k l (d ∷ ds) h a = (omega (arith, a.0), Used-suc k l ds h a.1)

module _ {A : Type 0} ⦃e : Eq A⦄ where
  -- What has reached the forwarder that the map has for an address.
  abbrev pub received : A → Forwarders A → List Bytes
  received a s = data_to_some (get a s.port_map) s.delivered

  -- The data of an address among some datagrams.
  unfoldable pub data_from : A → List (UdpTraffic A) → List Bytes
  data_from a [] = []
  data_from a (p ∷ ps) =
      let rest = data_from a ps in if p.from == a then p.data_bytes ∷ rest else rest

  abbrev Injective : Forwarders A → Type 0
  Injective s = (a b : A) (n : ℕ) → get a s.port_map ≡ some n → get b s.port_map ≡ some n → a ≡ b

  abbrev Used : Forwarders A → Type 0
  Used s = All (λ d. d.0 < s.next) s.delivered

  -- The forwarders run, each has one address, and their numbers are used up.
  pub record IsSound (s : Forwarders A) : Type 0 where
    pub live : Live s
    pub injective : Injective s
    pub used : Used s

  abbrev one : A → UdpTraffic A → List Bytes
  one a p = if p.from == a then p.data_bytes ∷ [] else []

  abbrev Passes : UdpTraffic A → Forwarders A → Forwarders A → Type 0
  Passes p s s' = IsSound s' × ((a : A) → received a s' ≡ received a s ++ one a p)

  equal-false : (a b : A) → a ≢ b → (a == b) ≡ false
  equal-false a b h = elim (Bool-cases (a == b)) [
    | inl q ↦ absurd (h ((==_iff a b).0 q))
    | inr q ↦ q
  ]

  -- One more datagram for the forwarder `k`, seen by the forwarder `m` of `a`.
  data_to-one :
      (a : A) (p : UdpTraffic A) (k m : ℕ) (ds : List (ℕ × Bytes))
      → eqb k m ≡ (p.from == a)
      → data_to m (ds ++ (k, p.data_bytes) ∷ []) ≡ data_to m ds ++ one a p
  data_to-one a p k m ds h =
      data_to-append m k p.data_bytes ds
      ∙ ap (λ b. data_to m ds ++ (if b then p.data_bytes ∷ [] else [])) h

  -- A datagram for a forwarder of the map.
  known-Passes :
      (p : UdpTraffic A) (s : Forwarders A) (n : ℕ)
      → IsSound s
      → get p.from s.port_map ≡ some n
      → Passes p s (record s { delivered = s.delivered ++ (n, p.data_bytes) ∷ [] })
  known-Passes p s n i q = (
    record {
      live = i.live;
      injective = i.injective;
      used = Used-append s.next (n, p.data_bytes) s.delivered i.used (i.live p.from n q).1;
    },
    λ a. elim (Option-cases (get a s.port_map)) [
      | inl z ↦
          let other : p.from ≢ a = λ w. let g = subst (λ b. get b s.port_map ≡ some n) w q in cc in
          rw (z, equal-false p.from a other) refl
      | inr (m, z) ↦ elim (Bool-cases (p.from == a)) [
        | inl t ↦
            let g = subst (λ b. get b s.port_map ≡ some n) ((==_iff p.from a).0 t) q in
            let same : n ≡ m = ground arith in rw z (data_to-one a p n m s.delivered (ground arith))
        | inr t ↦
            let other : n ≢ m = λ w.
              let g = i.injective p.from a n q (z ∙ ap some (sym w)) in
              absurd (ground (arith, ==_iff p.from a)) in
            rw z (data_to-one a p n m s.delivered (ground arith))
      ]
    ],
  )

  -- A datagram for an address without a forwarder.
  new-Passes :
      (p : UdpTraffic A) (s : Forwarders A)
      → IsSound s
      → get p.from s.port_map ≡ none
      → Passes p s (record (add_forwarder true p.from s) {
        delivered = s.delivered ++ (s.next, p.data_bytes) ∷ [];
      })
  new-Passes p s i q = (
    record {
      live = add_forwarder-Live p.from s i.live;
      injective = λ a b n z y. ground (
        arith,
        get-insert p.from a s.next s.port_map,
        get-insert p.from b s.next s.port_map,
        i.injective a b n,
        i.live a n,
        i.live b n,
        ==_iff p.from a,
        ==_iff p.from b,
      );
      used =
          Used-append (suc s.next) (s.next, p.data_bytes) s.delivered
            (Used-suc s.next (suc s.next) s.delivered (omega arith) i.used) (omega arith);
    },
    λ a. elim (Bool-cases (p.from == a)) [
      | inl t ↦
          let g = subst (λ b. get b s.port_map ≡ none) ((==_iff p.from a).0 t) q in
          rw (get-insert p.from a s.next s.port_map, t, g)
            (data_to-append s.next s.next p.data_bytes s.delivered
              ∙ ap (λ b. data_to s.next s.delivered ++ (if b then p.data_bytes ∷ [] else []))
                  (eqb_self s.next)
              ∙ ap (λ ds. ds ++ p.data_bytes ∷ []) (data_to-fresh s.next s.delivered i.used))
      | inr t ↦ elim (Option-cases (get a s.port_map)) [
        | inl z ↦ rw (get-insert p.from a s.next s.port_map, t, z) refl
        | inr (m, z) ↦
            let l = (i.live a m z).1 in
            let other : eqb s.next m ≡ (p.from == a) = ground arith in
            rw (get-insert p.from a s.next s.port_map, t, z)
              (data_to-append m s.next p.data_bytes s.delivered
                ∙ ap (λ b. data_to m s.delivered ++ (if b then p.data_bytes ∷ [] else []))
                    (other ∙ t))
      ]
    ],
  )

  on_packet-Passes :
      (p : UdpTraffic A) (s : Forwarders A) → IsSound s → Passes p s (on_packet true p s)
  on_packet-Passes p s i = elim (Option-cases (get p.from s.port_map)) [
    | inl q ↦ subst (Passes p s) (sym (on_packet_new p s q)) (new-Passes p s i q)
    | inr (n, q) ↦
        let known : on_packet true p s
            ≡ record s { delivered = s.delivered ++ (n, p.data_bytes) ∷ [] } =
          on_packet_known true p s n q
          ∙ ap
              (λ b. if b then record s { delivered = s.delivered ++ (n, p.data_bytes) ∷ [] } else s)
              (i.live p.from n q).0 in
        subst (Passes p s) (sym known) (known-Passes p s n i q)
  ]

  -- The service is there for each of the datagrams.
  abbrev pub connected : List (UdpTraffic A) → List (Bool × UdpTraffic A)
  connected = map (λ p. (true, p))

  data_from-one :
      (a : A) (p : UdpTraffic A) (ps : List (UdpTraffic A))
      → data_from a (p ∷ ps) ≡ one a p ++ data_from a ps
  unfolding data_from
  data_from-one a p ps = elim (Bool-cases (p.from == a)) [ inl t ↦ rw t refl | inr t ↦ rw t refl ]

  on_packets-data_from :
      (ps : List (UdpTraffic A)) (s : Forwarders A) (a : A)
      → IsSound s
      → received a (on_packets (connected ps) s) ≡ received a s ++ data_from a ps
  unfolding data_from
  on_packets-data_from [] s a i = sym (append-nil (received a s))
  on_packets-data_from (p ∷ ps) s a i =
      let (next, step) = on_packet-Passes p s i in
      on_packets-data_from ps (on_packet true p s) a next
      ∙ ap (λ ds. ds ++ data_from a ps) (step a)
      ∙ append_assoc (received a s) (one a p) (data_from a ps)
      ∙ ap (λ ds. received a s ++ ds) (sym (data_from-one a p ps))

  abbrev pub none_yet : Forwarders A
  none_yet = record { port_map = []; running = λ n. false; next = 0; delivered = [] }

  none_yet-IsSound : IsSound none_yet
  unfolding get
  none_yet-IsSound = record {
    live = λ a n q. absurd cc;
    injective = λ a b n q r. absurd cc;
    used = tt;
  }

  -- From no forwarder on.
  pub on_packets-none_yet :
      (ps : List (UdpTraffic A)) (a : A)
      → received a (on_packets (connected ps) none_yet) ≡ data_from a ps
  unfolding get
  on_packets-none_yet ps a = on_packets-data_from ps none_yet a none_yet-IsSound
