-- ===== src/Server/Handshake.antt =====
-- The handshakes of the tunnel server (rathole/src/server.rs: handle_connection,
-- do_control_channel_handshake, do_data_channel_handshake).
use rathole_with_proxy.Base.{
  ◌≡◌, ◌≢◌, refl, ◌∙◌, none, [], ◌∷◌, Eq, ◌==◌, ==_iff, Bool-cases, Option-cases, inl, inr, text_eq,
  arith, All, HashMap,
}
use rathole_with_proxy.Config.{ServerServiceConfig}
use rathole_with_proxy.MultiMap.{Item, key1, key2}
use rathole_with_proxy.MultiMap.Table.{Table, item_of, table_insert, Distinct}
use rathole_with_proxy.MultiMap.Distinct.{Distinct-without}
use rathole_with_proxy.Protocol.{Codec, Digest}
use rathole_with_proxy.Protocol.Stream.{Conn}
use rathole_with_proxy.Server.{
  ControlChannelMap, Session, do_control_channel_handshake, handle_connection, give,
}
use rathole_with_proxy.Server.Channel.{
  item_of-without_other, item_of-table_insert_other, do_control_channel_handshake-Respects,
  handle_connection-Respects,
}

-- At most one control channel for a service, and at most one for a session key.
abbrev pub OneEach : ControlChannelMap → Type 0
OneEach c = Distinct key1 c × Distinct key2 c

module _ {K1 K2 V : Type 0} ⦃e1 : Eq K1⦄ ⦃e2 : Eq K2⦄ where
  All-fresh :
      {K : Type 0} ⦃e : Eq K⦄ (key : Item K1 K2 V → K) (k : K) (xs : Table K1 K2 V)
      → item_of key k xs ≡ none
      → All (λ y. k ≢ key y) xs
  unfolding item_of
  All-fresh key k [] h = tt
  All-fresh key k (x ∷ xs) h =
      ((λ q. ground (arith, ==_iff (key x) k)), All-fresh key k xs (ground arith))

  pub table_insert-Distinct :
      (k : K1) (n : K2) (v : V) (xs : Table K1 K2 V)
      → Distinct key1 xs × Distinct key2 xs
      → Distinct key1 (table_insert k n v xs) × Distinct key2 (table_insert k n v xs)
  unfolding table_insert
  table_insert-Distinct k n v xs d = elim (Option-cases (item_of key1 k xs)) [
    | inr (x, p) ↦ rw p d
    | inl p ↦ elim (Option-cases (item_of key2 n xs)) [
      | inr (x, q) ↦ rw (p, q) d
      | inl q ↦ rw (p, q) ((All-fresh key1 k xs p, d.0), (All-fresh key2 n xs q, d.1))
    ]
  ]

module _ (x : Codec) where
  give-All1 :
      (k n : Digest) (conn : Conn) (c : ControlChannelMap)
      → All (λ y. k ≢ key1 y) c
      → All (λ y. k ≢ key1 y) (give x n conn c)
  give-All1 k n conn [] h = tt
  give-All1 k n conn (y ∷ c) h = elim (Bool-cases (key2 y == n)) [
    | inl same ↦ rw same h
    | inr other ↦ rw other (h.0, give-All1 k n conn c h.1)
  ]

  give-All2 :
      (k n : Digest) (conn : Conn) (c : ControlChannelMap)
      → All (λ y. k ≢ key2 y) c
      → All (λ y. k ≢ key2 y) (give x n conn c)
  give-All2 k n conn [] h = tt
  give-All2 k n conn (y ∷ c) h = elim (Bool-cases (key2 y == n)) [
    | inl same ↦ rw same h
    | inr other ↦ rw other (h.0, give-All2 k n conn c h.1)
  ]

  pub give-OneEach :
      (n : Digest) (conn : Conn) (c : ControlChannelMap) → OneEach c → OneEach (give x n conn c)
  give-OneEach n conn [] d = d
  give-OneEach n conn (y ∷ c) d = elim (Bool-cases (key2 y == n)) [
    | inl same ↦ rw same d
    | inr other ↦
        let ih = give-OneEach n conn c (d.0.1, d.1.1) in
        rw other
          ((give-All1 (key1 y) n conn c d.0.0, ih.0), (give-All2 (key2 y) n conn c d.1.0, ih.1))
  ]

  -- From a table with at most one control channel for a service and at most one for a
  -- session key, a connection leaves such a table, whatever the peer sends and wherever the
  -- connection breaks.
  pub handle_connection-OneEach :
      (services : HashMap Digest ServerServiceConfig) (nonce : Digest) (s : Session)
      → OneEach s.channels
      → OneEach (handle_connection x services nonce s).0.channels
  handle_connection-OneEach services nonce s =
      handle_connection-Respects (λ a b. OneEach a → OneEach b) (λ c h. h) (λ a b c f g h. g (f h))
        x services
        (λ d c h. (Distinct-without key1 key1 d c h.0, Distinct-without key1 key2 d c h.1))
        (λ d n v t c q r h. table_insert-Distinct d n t c h) give-OneEach nonce s

  -- A handshake for one service, accepted or not, leaves the channels of the other services.
  pub do_control_channel_handshake-other :
      (services : HashMap Digest ServerServiceConfig) (nonce d k : Digest) (s : Session)
      → k ≢ d
      → item_of key1 k (do_control_channel_handshake x services nonce d s).0.channels
        ≡ item_of key1 k s.channels
  do_control_channel_handshake-other services nonce d k s h =
      do_control_channel_handshake-Respects (λ a b. item_of key1 k b ≡ item_of key1 k a) (λ c. refl)
        (λ a b c f g. g ∙ f) x services d (λ c. item_of-without_other k d c h)
        (λ n v t c q r. item_of-table_insert_other k d n t c h) nonce s
