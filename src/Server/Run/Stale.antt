-- ===== src/Server/Run/Stale.antt =====
-- A hot reload while a handshake waits (rathole/src/server.rs: do_control_channel_handshake looks the
-- service up before it waits for the proof of its token).
use rathole_with_proxy.Base.{
  ◌≡◌, ◌≢◌, refl, sym, ◌∙◌, ap, subst, inl, inr, Option, none, some, List, [], ◌∷◌, ◌++◌, Eq, All,
  text_eq, get, get-remove, ◌==◌, ==_iff, ==_refl, Bool-cases, arith, Text,
}
use rathole_with_proxy.Config.{ServerServiceConfig}
use rathole_with_proxy.Watcher.{ServerServiceChange, ConfigChange}
use rathole_with_proxy.MultiMap.{key1, key2}
use rathole_with_proxy.MultiMap.Table.{Table, item_of, without, table_insert, Distinct}
use rathole_with_proxy.Protocol.{Codec, Digest, Auth, Ack, digest, as_bytes}
use rathole_with_proxy.Protocol.Stream.{Error, Result, ok, Conn, Io, ◌>>=◌, continue, bind_inverse}
use rathole_with_proxy.Server.{
  ControlChannelHandle, ControlChannelMap, Session, name_digest, new_handle, insert_handle,
  establish, validate, authenticate, handle_hot_reload,
}
use rathole_with_proxy.Server.Accept.{refuse-err}
use rathole_with_proxy.Server.Handshake.{OneEach}
use rathole_with_proxy.Server.Run.{Backoff, Task, Event, Running, run_task, run_nth, step, run}
use rathole_with_proxy.Server.Run.Invariant.{without-OneEach}
use rathole_with_proxy.Server.Run.Services.{new_handle-service}

continue-ok :
    {S A B : Type 0} (r : S × Result A) (k : A → Io S B) (t : S) (a : A)
    → r ≡ (t, ok a)
    → continue r k ≡ k a t
continue-ok r k t a q = ap (λ p. continue p k) q

-- A sequence that succeeds is its second step after the first.
bind-eq :
    {S A B : Type 0} (m : Io S A) (k : A → Io S B) (s : S) (b : B)
    → ((m >>= k) s).1 ≡ ok b
    → (t : S) × (a : A) × (m s ≡ (t, ok a)) × ((m >>= k) s ≡ k a t) × ((k a t).1 ≡ ok b)
unfolding ◌>>=◌
bind-eq m k s b h =
    let (t, a, q, r) = bind_inverse m k s b h in (t, a, q, continue-ok (m s) k t a q, r)

module _ {K1 K2 V : Type 0} ⦃e1 : Eq K1⦄ ⦃e2 : Eq K2⦄ where
  item_of-without :
      (k : K1) (xs : Table K1 K2 V) → Distinct key1 xs → item_of key1 k (without key1 k xs) ≡ none
  unfolding item_of without
  item_of-without k [] d = refl
  item_of-without k (y ∷ xs) d = elim (Bool-cases (key1 y == k)) [
    | inl same ↦ rw same (absent xs ((==_iff (key1 y) k).0 same) d.0)
    | inr other ↦ rw (other, other) (item_of-without k xs d.1)
  ]
    where
      absent :
          (l : Table K1 K2 V) → key1 y ≡ k → All (λ z. key1 y ≢ key1 z) l → item_of key1 k l ≡ none
      absent [] q a = refl
      absent (z ∷ l) q a = ground (arith, ==_iff (key1 z) k, absent l q a.1)

  item_of2-without :
      (k : K1) (n : K2) (xs : Table K1 K2 V)
      → item_of key2 n xs ≡ none
      → item_of key2 n (without key1 k xs) ≡ none
  unfolding item_of without
  item_of2-without k n [] h = refl
  item_of2-without k n (y ∷ xs) h = ground (arith, item_of2-without k n xs)

  item_of-table_insert :
      (k : K1) (n : K2) (v : V) (xs : Table K1 K2 V)
      → item_of key1 k xs ≡ none
      → item_of key2 n xs ≡ none
      → item_of key1 k (table_insert k n v xs) ≡ some (k, n, v)
  unfolding item_of table_insert
  item_of-table_insert k n v xs p q = ground (arith, ==_refl k)

module _ (x : Codec) (d : Digest) where
  -- An accepted handshake stores its handle in the table without the service's old channel.
  abbrev Stores : Digest → ServerServiceConfig → ControlChannelMap → ControlChannelMap → Type 0
  Stores key c old new =
      (h : ControlChannelHandle) × (new_handle x c ≡ some h)
      × (new ≡ table_insert d key h (without key1 d old))

  insert_handle-Stores :
      (key : Digest) (c : ServerServiceConfig) (old : ControlChannelMap)
      (o : Option ControlChannelHandle)
      → new_handle x c ≡ o
      → (s : Session) → s.channels ≡ without key1 d old
      → (insert_handle x d key o s).1 ≡ ok tt
      → Stores key c old (insert_handle x d key o s).0.channels
  insert_handle-Stores key c old none q s e r = absurd cc
  insert_handle-Stores key c old (some h) q s e r = (h, q, ap (table_insert d key h) e)

  establish-Stores :
      (key : Digest) (c : ServerServiceConfig) (s : Session)
      → (establish x d key c s).1 ≡ ok tt
      → Stores key c s.channels (establish x d key c s).0.channels
  establish-Stores key c s h =
      let (t1, a1, q1, e1, r1) = bind-eq _ _ s tt h in
      let (t2, a2, q2, e2, r2) = bind-eq _ _ t1 tt r1 in
      let (t3, a3, q3, e3, r3) = bind-eq _ _ t2 tt r2 in
      let kept =
        sym (ap (λ p. p.0.channels) q3)
        ∙ sym (ap (λ p. p.0.channels) q2)
        ∙ sym (ap (λ p. p.0.channels) q1) in
      subst (λ p. Stores key c s.channels p.0.channels) (sym (e1 ∙ e2 ∙ e3))
        (insert_handle-Stores key c s.channels (new_handle x c) refl t3 kept r3)

  validate-Stores :
      (key : Digest) (c : ServerServiceConfig) (a : Auth) (s : Session)
      → (validate x d key c a s).1 ≡ ok tt
      → Stores key c s.channels (validate x d key c a s).0.channels
  validate-Stores key c a s h = elim (Bool-cases (key == a.digest)) [
    | inl same ↦ rw same (establish-Stores key c s (rw same at h))
    | inr other ↦ absurd (refuse-err x Ack.auth_failed Error.auth_failed s tt (rw other at h))
  ]

  authenticate-Stores :
      (nonce : Digest) (c : ServerServiceConfig) (token : Text) (s : Session)
      → (authenticate x nonce d c (some token) s).1 ≡ ok tt
      → Stores
          (digest x (as_bytes token ++ nonce))
          c
          s.channels
          (authenticate x nonce d c (some token) s).0.channels
  authenticate-Stores nonce c token s h =
      let (t, a, q, e, r) = bind-eq _ _ s tt h in
      subst (λ p. Stores (digest x (as_bytes token ++ nonce)) c s.channels p.0.channels) (sym e)
        (subst
          (λ o.
            Stores (digest x (as_bytes token ++ nonce)) c o
              (validate x d (digest x (as_bytes token ++ nonce)) c a t).0.channels)
          (sym (ap (λ p. p.0.channels) q))
          (validate-Stores (digest x (as_bytes token ++ nonce)) c a t r))

  token-Stores :
      (nonce : Digest) (c : ServerServiceConfig) (o : Option Text) (token : Text) (s : Session)
      → o ≡ some token
      → (authenticate x nonce d c o s).1 ≡ ok tt
      → Stores
          (digest x (as_bytes token ++ nonce))
          c
          s.channels
          (authenticate x nonce d c o s).0.channels
  token-Stores nonce c none token s q h = absurd cc
  token-Stores nonce c (some t) token s q h =
      let same : t ≡ token = ground arith in
      subst
        (λ u.
          Stores (digest x (as_bytes u ++ nonce)) c s.channels
            (authenticate x nonce d c (some t) s).0.channels)
        same (authenticate-Stores nonce c t s h)

module _ (x : Codec) (b : Backoff) where
  -- A handshake that waits for the proof of its token when its service is deleted is accepted with
  -- the old token afterwards: the server then has a control channel, with the old configuration,
  -- for a service that it does not have. The session key is a new one and keys are distinct.
  pub run-deleted :
      (name token : Text) (nonce : Digest) (c : ServerServiceConfig) (conn : Conn) (ts : List Task)
      (r : Running x b)
      → let d = name_digest x name in
        let key = digest x (as_bytes token ++ nonce) in
        r.tasks ≡ Task.waiting nonce d c conn ∷ ts
        → c.token ≡ some token
        → OneEach r.server.control_channels
        → item_of key2 key r.server.control_channels ≡ none
        → (authenticate x nonce d c c.token
            (record { conn = conn; channels = without key1 d r.server.control_channels })).1
          ≡ ok tt
        → let after =
            run x b
              (Event.update (some (ConfigChange.server_change (ServerServiceChange.delete name)))
                ∷ Event.turn 0
                ∷ [])
              r in
          (get d after.server.services ≡ none)
          × ((h : ControlChannelHandle) × (item_of key1 d after.server.control_channels
                ≡ some (d, key, h))
              × (h.service ≡ c))
  unfolding run step run_nth run_task handle_hot_reload
  run-deleted name token nonce c conn ts r tasks t u free accepted =
      let d = name_digest x name in
      let key = digest x (as_bytes token ++ nonce) in
      let old = without key1 d r.server.control_channels in
      let (h, made, stored) =
        token-Stores x d nonce c c.token token (record { conn = conn; channels = old }) t
          accepted in
      rw tasks (
        get-remove d d r.server.services ∙ ground (arith, ==_refl d),
        (
          h,
          ap (item_of key1 d) stored
              ∙ item_of-table_insert d key h (without key1 d old)
                  (item_of-without d old (without-OneEach d r.server.control_channels u).0)
                  (item_of2-without d key old
                    (item_of2-without d key r.server.control_channels free)),
          new_handle-service x c h made,
        ),
      )
