-- ===== src/Server/Honest.antt =====
-- What an honest client gets (rathole/src/server.rs: do_control_channel_handshake).
use rathole_with_proxy.Base.{
  ℕ, suc, length, ◌≡◌, ◌≢◌, refl, subst, ap, ◌∙◌, some, none, [], ◌∷◌, ◌++◌, ◌==◌, ==_iff, ==_refl,
  Bool-cases, inl, inr, text_eq, arith, All, Text, Bytes, HashMap, get,
}
use rathole_with_proxy.Config.{ServerServiceConfig}
use rathole_with_proxy.MultiMap.{key1, key2}
use rathole_with_proxy.MultiMap.Table.{item_of, without, table_insert, Distinct}
use rathole_with_proxy.Protocol.{
  Codec, Digest, Hello, Ack, Auth, digest, as_bytes, read_auth, packet_len, current_proto_version,
}
use rathole_with_proxy.Protocol.Udp.{IsFormat}
use rathole_with_proxy.Protocol.Stream.{ok, Conn, ◌>>=◌, write_all, flush, read_exact-append}
use rathole_with_proxy.Server.{
  ControlChannelHandle, ControlChannelMap, Session, new_handle, insert_handle, establish,
  authenticate, lookup, do_control_channel_handshake,
}

item_of_absent :
    (d : Digest) (xs : ControlChannelMap) → All (λ y. d ≢ key1 y) xs → item_of key1 d xs ≡ none
unfolding item_of
item_of_absent d [] h = refl
item_of_absent d (y ∷ xs) h = ground (arith, ==_iff (key1 y) d, item_of_absent d xs h.1)

item_of-without_same :
    (d : Digest) (xs : ControlChannelMap)
    → Distinct key1 xs
    → item_of key1 d (without key1 d xs) ≡ none
unfolding item_of without
item_of-without_same d [] h = refl
item_of-without_same d (y ∷ xs) h = elim (Bool-cases (key1 y == d)) [
  | inl same ↦
      let at : key1 y ≡ d = (==_iff (key1 y) d).0 same in
      rw same (item_of_absent d xs (subst (λ z. All (λ w. z ≢ key1 w) xs) at h.0))
  | inr other ↦ rw (other, other) (item_of-without_same d xs h.1)
]

module _ (x : Codec) where
  -- The expected answer.
  abbrev pub answer : Digest → Text → Auth
  answer nonce token = record { digest = digest x (as_bytes token ++ nonce) }

  -- The session of an honest client after the server's hello.
  abbrev greeted : Digest → Text → ControlChannelMap → Bytes → Bytes → ℕ → Session
  greeted nonce token channels rest out n = record {
    conn = record {
      incoming = x.auth.serialize (answer nonce token) ++ rest;
      outgoing = out ++ x.hello.serialize (Hello.control_channel_hello current_proto_version nonce);
      writes = suc (suc n);
    };
    channels = channels;
  }

  table_insert-new :
      (d key : Digest) (h : ControlChannelHandle) (c : ControlChannelMap)
      → item_of key1 d c ≡ none
      → item_of key2 key c ≡ none
      → table_insert d key h c ≡ (d, key, h) ∷ c
  unfolding table_insert
  table_insert-new d key h c i1 i2 = rw (i1, i2) refl

  establish-ok :
      (d key : Digest) (c : ServerServiceConfig) (h : ControlChannelHandle)
      (channels : ControlChannelMap) (rest out : Bytes) (n : ℕ)
      → new_handle x c ≡ some h
      → item_of key1 d (without key1 d channels) ≡ none
      → item_of key2 key (without key1 d channels) ≡ none
      → establish x d key c (record {
        conn = record { incoming = rest; outgoing = out; writes = suc (suc n) };
        channels = channels;
      })
        ≡ (
          record {
            conn = record {
              incoming = rest;
              outgoing = out ++ x.ack.serialize Ack.accepted;
              writes = n;
            };
            channels = (d, key, h) ∷ without key1 d channels;
          },
          ok tt,
        )
  unfolding ◌>>=◌ write_all flush
  establish-ok d key c h channels rest out n nh i1 i2 =
      let sent : Conn = record {
        incoming = rest;
        outgoing = out ++ x.ack.serialize Ack.accepted;
        writes = n;
      } in
      ap (λ o. insert_handle x d key o (record { conn = sent; channels = without key1 d channels }))
        nh
      ∙ ap (λ t. (record { conn = sent; channels = t }, ok tt))
          (table_insert-new d key h (without key1 d channels) i1 i2)

  authenticate-honest :
      IsFormat x.auth
      → (nonce d : Digest) (c : ServerServiceConfig) (token : Text) (h : ControlChannelHandle)
        (channels : ControlChannelMap) (rest out : Bytes) (n : ℕ)
      → new_handle x c ≡ some h
      → (packet_len x).auth ≡ length (x.auth.serialize (answer nonce token))
      → item_of key1 d (without key1 d channels) ≡ none
      → item_of key2 (digest x (as_bytes token ++ nonce)) (without key1 d channels) ≡ none
      → authenticate x nonce d c (some token) (greeted nonce token channels rest out n) ≡ (
        record {
          conn = record {
            incoming = rest;
            outgoing =
                (out ++ x.hello.serialize (Hello.control_channel_hello current_proto_version nonce))
                ++ x.ack.serialize Ack.accepted;
            writes = n;
          };
          channels = (d, digest x (as_bytes token ++ nonce), h) ∷ without key1 d channels;
        },
        ok tt,
      )
  unfolding ◌>>=◌ read_auth
  authenticate-honest format nonce d c token h channels rest out n nh len i1 i2 =
      rw
        (
          read_exact-append (x.auth.serialize (answer nonce token)) rest
              (out ++ x.hello.serialize (Hello.control_channel_hello current_proto_version nonce))
              (packet_len x).auth (suc (suc n)) len,
          format (answer nonce token),
          ==_refl (digest x (as_bytes token ++ nonce)),
        )
        (establish-ok d (digest x (as_bytes token ++ nonce)) c h channels rest
          (out ++ x.hello.serialize (Hello.control_channel_hello current_proto_version nonce)) n nh
          i1 i2)

  -- The session of an honest client: what it sends, and a connection that lasts the handshake.
  abbrev pub honest : Bytes → Bytes → ℕ → ControlChannelMap → Auth → Session
  honest rest out n channels auth = record {
    conn = record {
      incoming = x.auth.serialize auth ++ rest;
      outgoing = out;
      writes = suc (suc (suc (suc n)));
    };
    channels = channels;
  }

  -- A client that answers with the digest of the token and the nonce is accepted: it gets the
  -- server's hello and an `Ok`, its service has the new channel and no other one, and the channels
  -- of the other services stay, provided that no other service has the session key.
  pub do_control_channel_handshake-honest :
      IsFormat x.auth
      → (services : HashMap Digest ServerServiceConfig) (nonce d : Digest) (c : ServerServiceConfig)
        (token : Text) (h : ControlChannelHandle) (channels : ControlChannelMap) (rest out : Bytes)
        (n : ℕ)
      → get d services ≡ some c
      → c.token ≡ some token
      → new_handle x c ≡ some h
      → (packet_len x).auth
        ≡ length (x.auth.serialize (record { digest = digest x (as_bytes token ++ nonce) }))
      → Distinct key1 channels
      → item_of key2 (digest x (as_bytes token ++ nonce)) (without key1 d channels) ≡ none
      → do_control_channel_handshake x services nonce d
          (honest rest out n channels (record { digest = digest x (as_bytes token ++ nonce) }))
        ≡ (
          record {
            conn = record {
              incoming = rest;
              outgoing =
                  (out
                    ++ x.hello.serialize (Hello.control_channel_hello current_proto_version nonce))
                  ++ x.ack.serialize Ack.accepted;
              writes = n;
            };
            channels = (d, digest x (as_bytes token ++ nonce), h) ∷ without key1 d channels;
          },
          ok tt,
        )
  unfolding do_control_channel_handshake ◌>>=◌ write_all flush
  do_control_channel_handshake-honest format services nonce d c token h channels rest out n q t nh
        len i1 i2 =
      ap (λ o. lookup x nonce d o (greeted nonce token channels rest out n)) q
      ∙ ap (λ o. authenticate x nonce d c o (greeted nonce token channels rest out n)) t
      ∙ authenticate-honest format nonce d c token h channels rest out n nh len
          (item_of-without_same d channels i1) i2
