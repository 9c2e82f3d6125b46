-- ===== src/Server/Run/Opened.antt =====
-- How a control channel is opened (rathole/src/server.rs: do_control_channel_handshake, from the proof
-- on).
use rathole_with_proxy.Base.{
  ◌≡◌, refl, sym, ◌∙◌, ap, Option, none, some, List, [], ◌∷◌, ◌++◌, ◌||◌, All, In, inl, inr, Text,
  text_eq, ◌==◌, ==_iff, Bool-cases, arith,
}
use rathole_with_proxy.Config.{ServerServiceConfig}
use rathole_with_proxy.MultiMap.{key1, key2, is_some}
use rathole_with_proxy.MultiMap.Table.{item_of, without, table_insert}
use rathole_with_proxy.Protocol.{Codec, Digest, Ack, Auth, digest, as_bytes, read_auth}
use rathole_with_proxy.Protocol.Stream.{Error, Result, ok, err, Conn, Io, ◌>>=◌, continue}
use rathole_with_proxy.Server.{
  ControlChannelHandle, ControlChannelMap, Session, new_handle, insert_handle, establish, refuse,
  validate, authenticate, give,
}
use rathole_with_proxy.Server.Accept.{Proves}
use rathole_with_proxy.Server.Channel.{Respects, bind-Respects}
use rathole_with_proxy.Server.Run.Reads.{IsRest}

module _ (x : Codec) (came : List (Digest × Conn)) where
  -- A connection has come with the nonce, and the second still reads an end of what it reads.
  abbrev pub Came : Digest → Conn → Type 0
  Came nonce conn = (first : Conn) × In (nonce, first) came × IsRest first conn

  -- The channel has been opened over such a connection: its session key is the digest of the token
  -- of its service and the nonce, and the peer has sent this digest as its answer.
  pub record Proved (c : Digest × Digest × ControlChannelHandle) : Type 0 where
    pub nonce : Digest
    pub token : Text
    pub has_token : c.2.service.token ≡ some token
    pub key : key2 c ≡ digest x (as_bytes token ++ nonce)
    pub conn : Conn
    pub came_with : Came nonce conn
    pub after : Conn
    pub auth : Auth
    pub answer : read_auth x conn ≡ (after, ok auth)
    pub proves : Proves x nonce token auth

  abbrev pub AllProved : ControlChannelMap → Type 0
  AllProved = All Proved

  pub drops : (d : Digest) (c : ControlChannelMap) → AllProved c → AllProved (without key1 d c)
  unfolding without
  drops d [] h = tt
  drops d (e ∷ c) h = elim (Bool-cases (key1 e == d)) [
    | inl q ↦ rw q h.1
    | inr q ↦ rw q (h.0, drops d c h.1)
  ]

  inserts :
      (d n : Digest) (v : ControlChannelHandle) (c : ControlChannelMap)
      → Proved (d, n, v)
      → AllProved c
      → AllProved (table_insert d n v c)
  unfolding table_insert
  inserts d n v c p h =
      elim (Bool-cases (is_some (item_of key1 d c) || is_some (item_of key2 n c))) [
        | inl q ↦ rw q h
        | inr q ↦ rw q (p, h)
      ]

  given :
      (conn : Conn) (e : Digest × Digest × ControlChannelHandle)
      → Proved e
      → Proved (e.0, e.1, record e.2 { data_channels = e.2.data_channels ++ conn ∷ [] })
  given conn e p = record {
    nonce = p.nonce;
    token = p.token;
    has_token = p.has_token;
    key = p.key;
    conn = p.conn;
    came_with = p.came_with;
    after = p.after;
    auth = p.auth;
    answer = p.answer;
    proves = p.proves;
  }

  pub gives :
      (n : Digest) (conn : Conn) (c : ControlChannelMap) → AllProved c → AllProved (give x n conn c)
  gives n conn [] h = tt
  gives n conn (e ∷ c) h = elim (Bool-cases (key2 e == n)) [
    | inl q ↦ rw q (given conn e h.0, h.1)
    | inr q ↦ rw q (h.0, gives n conn c h.1)
  ]

  abbrev R : ControlChannelMap → ControlChannelMap → Type 0
  R a b = AllProved a → AllProved b

  abbrev Keeps : {A : Type 0} → Io Session A → Type 0
  Keeps = Respects R (λ c h. h) (λ a b c f g h. g (f h))

  bind-Keeps :
      {A B : Type 0} (m : Io Session A) (k : A → Io Session B)
      → Keeps m
      → ((a : A) → Keeps (k a))
      → Keeps (m >>= k)
  bind-Keeps = bind-Respects R (λ c h. h) (λ a b c f g h. g (f h))

  insert_handle-Keeps :
      (d n : Digest) (o : Option ControlChannelHandle)
      → ((h : ControlChannelHandle) → o ≡ some h → Proved (d, n, h))
      → Keeps (insert_handle x d n o)
  insert_handle-Keeps d n none p s h = h
  insert_handle-Keeps d n (some v) p s h = inserts d n v s.channels (p v refl) h

  establish-Keeps :
      (d n : Digest) (v : ServerServiceConfig)
      → ((h : ControlChannelHandle) → new_handle x v ≡ some h → Proved (d, n, h))
      → Keeps (establish x d n v)
  establish-Keeps d n v p =
      bind-Keeps _ _ (λ s h. drops d s.channels h)
        (λ a.
          bind-Keeps _ _ (λ s h. h)
            (λ b. bind-Keeps _ _ (λ s h. h) (λ c. insert_handle-Keeps d n (new_handle x v) p)))

  refuse-Keeps : (a : Ack) (e : Error) → Keeps (refuse x a e)
  refuse-Keeps a e = bind-Keeps _ _ (λ s h. h) (λ b s h. h)

  new_handle-service :
      (v : ServerServiceConfig) (h : ControlChannelHandle) → new_handle x v ≡ some h → h.service ≡ v
  new_handle-service v h q = ground arith

  module _ (nonce d : Digest) (v : ServerServiceConfig) (token : Text) (has : v.token ≡ some token)
      (s : Session) (c : Came nonce s.conn) where
    abbrev session_key : Digest
    session_key = digest x (as_bytes token ++ nonce)

    opened :
        (u : Conn) (auth : Auth)
        → read_auth x s.conn ≡ (u, ok auth)
        → session_key ≡ auth.digest
        → (h : ControlChannelHandle) → new_handle x v ≡ some h
        → Proved (d, session_key, h)
    opened u auth q same h made = record {
      nonce = nonce;
      token = token;
      has_token = ap (λ (w : ServerServiceConfig). w.token) (new_handle-service v h made) ∙ has;
      key = refl;
      conn = s.conn;
      came_with = c;
      after = u;
      auth = auth;
      answer = q;
      proves = sym same;
    }

    validate-AllProved :
        (u : Conn) (auth : Auth)
        → read_auth x s.conn ≡ (u, ok auth)
        → Keeps (validate x d session_key v auth)
    validate-AllProved u auth q t h = elim (Bool-cases (session_key == auth.digest)) [
      | inl e ↦ rw e (
          establish-Keeps d session_key v (opened u auth q ((==_iff session_key auth.digest).0 e)) t
            h)
      | inr e ↦ rw e (refuse-Keeps Ack.auth_failed Error.auth_failed t h)
    ]

    after_read :
        (r : Conn × Result Auth)
        → read_auth x s.conn ≡ r
        → AllProved s.channels
        → AllProved
            (continue (record s { conn = r.0 }, r.1) (validate x d session_key v)).0.channels
    after_read (u, ok auth) q h = validate-AllProved u auth q (record s { conn = u }) h
    after_read (u, err e) q h = h

  pub authenticate-AllProved :
      (nonce d : Digest) (v : ServerServiceConfig) (o : Option Text) (s : Session)
      → v.token ≡ o
      → Came nonce s.conn
      → AllProved s.channels
      → AllProved (authenticate x nonce d v o s).0.channels
  unfolding ◌>>=◌
  authenticate-AllProved nonce d v none s q c h = h
  authenticate-AllProved nonce d v (some token) s q c h =
      after_read nonce d v token q s c (read_auth x s.conn) refl h
