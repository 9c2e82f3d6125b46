-- ===== src/Server/Accept.antt =====
-- Who gets a control channel (rathole/src/server.rs: do_control_channel_handshake).
use rathole_with_proxy.Base.{
  ℕ, zero, suc, ◌≡◌, ◌≢◌, refl, sym, ◌∙◌, Option, some, none, ◌++◌, ◌==◌, ==_iff, Bool-cases, ◌⊎◌,
  inl, inr, text_eq, arith, Text, Bytes, HashMap, get,
}
use rathole_with_proxy.Config.{ServerServiceConfig}
use rathole_with_proxy.Protocol.{Codec, Digest, Ack, Auth, digest, as_bytes, read_auth}
use rathole_with_proxy.Protocol.Stream.{Error, ok, Conn, write_all, flush, bind_inverse}
use rathole_with_proxy.Server.{
  Session, on_conn, refuse, validate, authenticate, lookup, do_control_channel_handshake,
}

ℕ-cases : (n : ℕ) → (n ≡ 0) ⊎ ((m : ℕ) × (n ≡ suc m))
ℕ-cases zero = inl refl
ℕ-cases (suc n) = inr (n, refl)

module _ (x : Codec) where
  pub refuse-err : (a : Ack) (e : Error) (s : Session) (u : Unit {0}) → (refuse x a e s).1 ≢ ok u
  refuse-err a e s u h = let (t, b, q, r) = bind_inverse _ _ s u h in cc

  -- The answer that proves the knowledge of a token.
  abbrev pub Proves : Digest → Text → Auth → Type 0
  Proves nonce token auth = auth.digest ≡ digest x (as_bytes token ++ nonce)

  read_auth_conn :
      (s t : Session) (a : Auth)
      → on_conn (read_auth x) s ≡ (t, ok a)
      → (u : Conn) × (read_auth x s.conn ≡ (u, ok a))
  read_auth_conn s t a h = ((read_auth x s.conn).0, ground arith)

  validate-Proves :
      (key d : Digest) (c : ServerServiceConfig) (a : Auth) (s : Session)
      → (validate x d key c a s).1 ≡ ok tt
      → a.digest ≡ key
  validate-Proves key d c a s h = elim (Bool-cases (key == a.digest)) [
    | inl same ↦ sym ((==_iff key a.digest).0 same)
    | inr other ↦ absurd (refuse-err Ack.auth_failed Error.auth_failed s tt (rw other at h))
  ]

  authenticate-Proves :
      (nonce d : Digest) (c : ServerServiceConfig) (o : Option Text) (s : Session)
      → (authenticate x nonce d c o s).1 ≡ ok tt
      → (token : Text) × (u : Conn) × (auth : Auth) × (o ≡ some token)
        × (read_auth x s.conn ≡ (u, ok auth))
        × Proves nonce token auth
  authenticate-Proves nonce d c none s h = absurd cc
  authenticate-Proves nonce d c (some token) s h =
      let (t, a, r, v) = bind_inverse _ _ s tt h in
      let (u, z) = read_auth_conn s t a r in (token, u, a, refl, z, validate-Proves _ d c a t v)

  lookup-Proves :
      (nonce d : Digest) (o : Option ServerServiceConfig) (s : Session)
      → (lookup x nonce d o s).1 ≡ ok tt
      → (c : ServerServiceConfig) × (token : Text) × (u : Conn) × (auth : Auth) × (o ≡ some c)
        × (c.token ≡ some token)
        × (read_auth x s.conn ≡ (u, ok auth))
        × Proves nonce token auth
  lookup-Proves nonce d none s h =
      absurd (refuse-err Ack.service_not_exist Error.no_such_service s tt h)
  lookup-Proves nonce d (some c) s h =
      let (token, u, a, q, z, p) = authenticate-Proves nonce d c c.token s h in
      (c, token, u, a, refl, q, z, p)

  write_all-incoming :
      (bs : Bytes) (s t : Session) (u : Unit {0})
      → on_conn (write_all bs) s ≡ (t, ok u)
      → t.conn.incoming ≡ s.conn.incoming
  unfolding write_all
  write_all-incoming bs s t u h = elim (ℕ-cases s.conn.writes) [
    | inl z ↦ ground arith
    | inr (n, z) ↦ ground arith
  ]

  flush-incoming :
      (s t : Session) (u : Unit {0})
      → on_conn flush s ≡ (t, ok u)
      → t.conn.incoming ≡ s.conn.incoming
  unfolding flush
  flush-incoming s t u h = elim (ℕ-cases s.conn.writes) [
    | inl z ↦ ground arith
    | inr (n, z) ↦ ground arith
  ]

  -- A handshake for a control channel succeeds only for a service of the server that has a
  -- token, and only with a peer whose answer is the digest of that token and the nonce of
  -- this session.
  pub do_control_channel_handshake-Proves :
      (services : HashMap Digest ServerServiceConfig) (nonce d : Digest) (s : Session)
      → (do_control_channel_handshake x services nonce d s).1 ≡ ok tt
      → (c : ServerServiceConfig) × (token : Text) × (t : Conn) × (u : Conn) × (auth : Auth) × (get
            d services
          ≡ some c)
        × (c.token ≡ some token)
        × (t.incoming ≡ s.conn.incoming)
        × (read_auth x t ≡ (u, ok auth))
        × Proves nonce token auth
  unfolding do_control_channel_handshake
  do_control_channel_handshake-Proves services nonce d s h =
      let (t, a, q, r) = bind_inverse _ _ s tt h in
      let (u, b, q', r') = bind_inverse _ _ t tt r in
      let (c, token, w, auth, e, f, g, p) = lookup-Proves nonce d (get d services) u r' in
      (
        c,
        token,
        u.conn,
        w,
        auth,
        e,
        f,
        flush-incoming t u b q' ∙ write_all-incoming _ s t a q,
        g,
        p,
      )
