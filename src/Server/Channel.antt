-- ===== src/Server/Channel.antt =====
-- What the steps of a session do to the shared control channels (rathole/src/server.rs).
use rathole_with_proxy.Base.{
  ◌≡◌, ◌≢◌, refl, Option, none, some, [], ◌∷◌, Eq, ◌==◌, ==_iff, Bool-cases, inl, inr, text_eq,
  arith, Text, HashMap, get,
}
use rathole_with_proxy.MultiMap.{Item, key1, key2}
use rathole_with_proxy.MultiMap.Table.{Table, item_of, without, table_insert}
use rathole_with_proxy.Config.{ServerServiceConfig}
use rathole_with_proxy.Protocol.{Codec, Digest, Ack, Auth, Hello}
use rathole_with_proxy.Protocol.Stream.{Error, Result, ok, err, Conn, Io, ◌>>=◌, continue}
use rathole_with_proxy.Server.{
  ControlChannelHandle, ControlChannelMap, Session, new_handle, insert_handle, drop_channel,
  establish, refuse, validate, authenticate, lookup, do_control_channel_handshake,
  do_data_channel_handshake, handle_connection, dispatch, give, give_to,
}

module _ {K1 K2 V : Type 0} ⦃e1 : Eq K1⦄ ⦃e2 : Eq K2⦄ where
  pub item_of-without_other :
      (k d : K1) (xs : Table K1 K2 V)
      → k ≢ d
      → item_of key1 k (without key1 d xs) ≡ item_of key1 k xs
  unfolding item_of without
  item_of-without_other k d [] h = refl
  item_of-without_other k d (x ∷ xs) h =
      ground (arith, ==_iff (key1 x) k, ==_iff (key1 x) d, item_of-without_other k d xs h)

  pub item_of-table_insert_other :
      (k d : K1) (n : K2) (v : V) (xs : Table K1 K2 V)
      → k ≢ d
      → item_of key1 k (table_insert d n v xs) ≡ item_of key1 k xs
  unfolding item_of table_insert
  item_of-table_insert_other k d n v xs h = ground (arith, ==_iff d k)

module _ (R : ControlChannelMap → ControlChannelMap → Type 0)
    (R_refl : (c : ControlChannelMap) → R c c)
    (R_trans : (a b c : ControlChannelMap) → R a b → R b c → R a c) where
  -- Whatever happens in the session, the channels before and after it are related.
  abbrev pub Respects : {A : Type 0} → Io Session A → Type 0
  Respects m = (s : Session) → R s.channels (m s).0.channels

  continue-Respects :
      {A B : Type 0} (c : ControlChannelMap) (r : Session × Result A) (k : A → Io Session B)
      → R c r.0.channels
      → ((a : A) → Respects (k a))
      → R c (continue r k).0.channels
  continue-Respects c (s, ok a) k h hk = R_trans c s.channels (k a s).0.channels h (hk a s)
  continue-Respects c (s, err e) k h hk = h

  pub bind-Respects :
      {A B : Type 0} (m : Io Session A) (k : A → Io Session B)
      → Respects m
      → ((a : A) → Respects (k a))
      → Respects (m >>= k)
  unfolding ◌>>=◌
  bind-Respects m k hm hk s = continue-Respects s.channels (m s) k (hm s) hk

  module _ (x : Codec) (services : HashMap Digest ServerServiceConfig) (d : Digest)
      (drops : (c : ControlChannelMap) → R c (without key1 d c))
      (inserts : (n : Digest) (v : ServerServiceConfig) (h : ControlChannelHandle)
          (c : ControlChannelMap)
        → get d services ≡ some v
        → new_handle x v ≡ some h
        → R c (table_insert d n h c)) where
    insert_handle-Respects :
        (n : Digest) (v : ServerServiceConfig) (o : Option ControlChannelHandle)
        → get d services ≡ some v
        → new_handle x v ≡ o
        → Respects (insert_handle x d n o)
    insert_handle-Respects n v none q r s = R_refl s.channels
    insert_handle-Respects n v (some h) q r s = inserts n v h s.channels q r

    drop_channel-Respects : Respects (drop_channel x d)
    drop_channel-Respects s = drops s.channels

    establish-Respects :
        (n : Digest) (v : ServerServiceConfig)
        → get d services ≡ some v
        → Respects (establish x d n v)
    establish-Respects n v q = bind-Respects _ _ drop_channel-Respects (λ a.
        bind-Respects _ _ (λ t. R_refl t.channels)
          (λ b.
            bind-Respects _ _ (λ t. R_refl t.channels)
              (λ f. insert_handle-Respects n v (new_handle x v) q refl)))

    refuse-Respects : (a : Ack) (e : Error) → Respects (refuse x a e)
    refuse-Respects a e = bind-Respects _ _ (λ t. R_refl t.channels) (λ b s. R_refl s.channels)

    validate-Respects :
        (n : Digest) (v : ServerServiceConfig) (a : Auth)
        → get d services ≡ some v
        → Respects (validate x d n v a)
    validate-Respects n v a q s = elim (Bool-cases (n == a.digest)) [
      | inl same ↦ rw same (establish-Respects n v q s)
      | inr other ↦ rw other (refuse-Respects Ack.auth_failed Error.auth_failed s)
    ]

    pub authenticate-Respects :
        (n : Digest) (v : ServerServiceConfig) (t : Option Text)
        → get d services ≡ some v
        → Respects (authenticate x n d v t)
    authenticate-Respects n v none q s = R_refl s.channels
    authenticate-Respects n v (some t) q s =
        bind-Respects _ _ (λ t. R_refl t.channels) (λ a. validate-Respects _ v a q) s

    lookup-Respects :
        (n : Digest) (o : Option ServerServiceConfig)
        → get d services ≡ o
        → Respects (lookup x n d o)
    lookup-Respects n none q = refuse-Respects Ack.service_not_exist Error.no_such_service
    lookup-Respects n (some v) q = authenticate-Respects n v v.token q

    pub do_control_channel_handshake-Respects :
        (n : Digest) → Respects (do_control_channel_handshake x services n d)
    unfolding do_control_channel_handshake
    do_control_channel_handshake-Respects n =
        bind-Respects _ _ (λ t. R_refl t.channels)
          (λ a.
            bind-Respects _ _ (λ t. R_refl t.channels)
              (λ b. lookup-Respects n (get d services) refl))

  give_to-Respects :
      (x : Codec)
      → ((n : Digest) (conn : Conn) (c : ControlChannelMap) → R c (give x n conn c))
      → (n : Digest) (o : Option (Item Digest Digest ControlChannelHandle))
      → Respects (give_to x n o)
  give_to-Respects x gives n none s = R_refl s.channels
  give_to-Respects x gives n (some h) s = elim (Bool-cases h.2.alive) [
    | inl a ↦ rw a (gives n s.conn s.channels)
    | inr a ↦ rw a (R_refl s.channels)
  ]

  pub data_channel-Respects :
      (x : Codec)
      → ((n : Digest) (conn : Conn) (c : ControlChannelMap) → R c (give x n conn c))
      → (n : Digest) → Respects (do_data_channel_handshake x n)
  unfolding do_data_channel_handshake
  data_channel-Respects x gives n s = give_to-Respects x gives n (item_of key2 n s.channels) s

  dispatch-Respects :
      (x : Codec) (services : HashMap Digest ServerServiceConfig)
      → ((d : Digest) (c : ControlChannelMap) → R c (without key1 d c))
      → ((d n : Digest) (v : ServerServiceConfig) (h : ControlChannelHandle) (c : ControlChannelMap)
          → get d services ≡ some v
          → new_handle x v ≡ some h
          → R c (table_insert d n h c))
      → ((n : Digest) (conn : Conn) (c : ControlChannelMap) → R c (give x n conn c))
      → (nonce : Digest) (h : Hello) → Respects (dispatch x services nonce h)
  dispatch-Respects x services drops inserts gives nonce (Hello.control_channel_hello v d) =
      do_control_channel_handshake-Respects x services d (drops d) (inserts d) nonce
  dispatch-Respects x services drops inserts gives nonce (Hello.data_channel_hello v d) =
      data_channel-Respects x gives d

  -- A connection of either kind.
  pub handle_connection-Respects :
      (x : Codec) (services : HashMap Digest ServerServiceConfig)
      → ((d : Digest) (c : ControlChannelMap) → R c (without key1 d c))
      → ((d n : Digest) (v : ServerServiceConfig) (h : ControlChannelHandle) (c : ControlChannelMap)
          → get d services ≡ some v
          → new_handle x v ≡ some h
          → R c (table_insert d n h c))
      → ((n : Digest) (conn : Conn) (c : ControlChannelMap) → R c (give x n conn c))
      → (nonce : Digest) → Respects (handle_connection x services nonce)
  unfolding handle_connection
  handle_connection-Respects x services drops inserts gives nonce =
      bind-Respects _ _ (λ t. R_refl t.channels)
        (dispatch-Respects x services drops inserts gives nonce)
