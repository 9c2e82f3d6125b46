-- ===== src/Client/Agreement.antt =====
-- Server and client agree (rathole/src/client.rs: ControlChannel::run, with
-- do_control_channel_handshake of rathole/src/server.rs).
use rathole_with_proxy.Base.{
  ℕ, suc, length, ◌≡◌, refl, ap, some, none, [], ◌∷◌, ◌++◌, text_eq, Text, Bytes, HashMap, get,
}
use rathole_with_proxy.Config.{ClientServiceConfig, ServerServiceConfig}
use rathole_with_proxy.Protocol.{
  Codec, Digest, Hello, Ack, Auth, digest, as_bytes, packet_len, current_proto_version, read_hello,
  read_ack,
}
use rathole_with_proxy.Protocol.Udp.{IsFormat}
use rathole_with_proxy.Protocol.Stream.{ok, ◌>>=◌, write_all, flush, read_exact-append}
use rathole_with_proxy.MultiMap.{key1, key2}
use rathole_with_proxy.MultiMap.Table.{item_of, without, Distinct}
use rathole_with_proxy.Server.{
  ControlChannelHandle, ControlChannelMap, new_handle, handle_connection,
}
use rathole_with_proxy.Server.Honest.{do_control_channel_handshake-honest}
use rathole_with_proxy.Client.{handshake}

module _ (x : Codec) where
  -- What a client writes in a handshake.
  abbrev pub greeting : ClientServiceConfig → Bytes
  greeting service =
      x.hello.serialize
        (Hello.control_channel_hello current_proto_version (digest x (as_bytes service.name)))

  abbrev pub answer : Text → Digest → Auth
  answer token nonce = record { digest = digest x (as_bytes token ++ nonce) }

  pub handshake-accepted :
      IsFormat x.hello
      → IsFormat x.ack
      → (service : ClientServiceConfig) (token : Text) (nonce : Digest) (rest out : Bytes) (n : ℕ)
      → service.token ≡ some token
      → (packet_len x).hello
        ≡ length (x.hello.serialize (Hello.control_channel_hello current_proto_version nonce))
      → handshake x service (record {
        incoming =
            x.hello.serialize (Hello.control_channel_hello current_proto_version nonce)
            ++ (x.ack.serialize Ack.accepted ++ rest);
        outgoing = out;
        writes = suc (suc (suc (suc n)));
      })
        ≡ (
          record {
            incoming = rest;
            outgoing = (out ++ greeting service) ++ x.auth.serialize (answer token nonce);
            writes = n;
          },
          ok (digest x (as_bytes token ++ nonce)),
        )
  unfolding handshake ◌>>=◌ write_all flush read_hello read_ack
  handshake-accepted fh fa service token nonce rest out n t len =
      rw
        (
          read_exact-append
              (x.hello.serialize (Hello.control_channel_hello current_proto_version nonce))
              (x.ack.serialize Ack.accepted ++ rest) (out ++ greeting service) (packet_len x).hello
              (suc (suc n)) len,
          fh (Hello.control_channel_hello current_proto_version nonce),
          t,
        )
        (rw
          (
            read_exact-append (x.ack.serialize Ack.accepted) rest
                ((out ++ greeting service) ++ x.auth.serialize (answer token nonce))
                (packet_len x).ack n refl,
            fa Ack.accepted,
          )
          refl)

  append_assoc : (a b c : Bytes) → (a ++ b) ++ c ≡ a ++ (b ++ c)
  append_assoc [] b c = refl
  append_assoc (y ∷ a) b c = ap (◌∷◌ y) (append_assoc a b c)

  -- The server's half, from the hello of the client on.
  handle_connection-accepted :
      IsFormat x.hello
      → IsFormat x.auth
      → (services : HashMap Digest ServerServiceConfig) (nonce d : Digest) (c : ServerServiceConfig)
        (token : Text) (h : ControlChannelHandle) (channels : ControlChannelMap) (rest out : Bytes)
        (n : ℕ)
      → get d services ≡ some c
      → c.token ≡ some token
      → new_handle x c ≡ some h
      → (packet_len x).hello
        ≡ length (x.hello.serialize (Hello.control_channel_hello current_proto_version d))
      → (packet_len x).auth ≡ length (x.auth.serialize (answer token nonce))
      → Distinct key1 channels
      → item_of key2 (digest x (as_bytes token ++ nonce)) (without key1 d channels) ≡ none
      → handle_connection x services nonce (record {
        conn = record {
          incoming =
              x.hello.serialize (Hello.control_channel_hello current_proto_version d)
              ++ (x.auth.serialize (answer token nonce) ++ rest);
          outgoing = out;
          writes = suc (suc (suc (suc n)));
        };
        channels = channels;
      })
        ≡ (
          record {
            conn = record {
              incoming = rest;
              outgoing =
                  (out
                    ++ x.hello.serialize (Hello.control_channel_hello current_proto_version nonce))
                  ++ x.ack.serialize Ack.accepted;
              writes = n;
            };
            channels = (d, digest x (as_bytes token ++ nonce), h) ∷ without key1 d channels;
          },
          ok tt,
        )
  unfolding handle_connection ◌>>=◌ read_hello
  handle_connection-accepted fh fa services nonce d c token h channels rest out n q t nh lh la one
        i2 =
      rw
        (
          read_exact-append
              (x.hello.serialize (Hello.control_channel_hello current_proto_version d))
              (x.auth.serialize (answer token nonce) ++ rest) out (packet_len x).hello
              (suc (suc (suc (suc n)))) lh,
          fh (Hello.control_channel_hello current_proto_version d),
        )
        (do_control_channel_handshake-honest x fa services nonce d c token h channels rest out n q t
          nh la one i2)

  -- What each side sends in a handshake that succeeds.
  abbrev pub client_sends : ClientServiceConfig → Text → Digest → Bytes
  client_sends service token nonce = greeting service ++ x.auth.serialize (answer token nonce)

  abbrev pub server_sends : Digest → Bytes
  server_sends nonce =
      x.hello.serialize (Hello.control_channel_hello current_proto_version nonce)
      ++ x.ack.serialize Ack.accepted

  -- Client and server with one token for the service understand each other: what the client
  -- sends makes the server accept it, what the server sends makes the client succeed, and
  -- the session key that the client takes is the one that the server stores with the
  -- service's new channel. The encodings decode what they encode and give hellos and answers
  -- one length, the service is TCP or UDP, the table has at most one channel for a service,
  -- no other service has the session key, and neither connection breaks.
  pub handshake-handle_connection :
      IsFormat x.hello
      → IsFormat x.auth
      → IsFormat x.ack
      → (services : HashMap Digest ServerServiceConfig) (nonce : Digest)
        (service : ClientServiceConfig) (c : ServerServiceConfig) (token : Text)
        (h : ControlChannelHandle) (channels : ControlChannelMap) (rest : Bytes) (n : ℕ)
      → service.token ≡ some token
      → get (digest x (as_bytes service.name)) services ≡ some c
      → c.token ≡ some token
      → new_handle x c ≡ some h
      → (packet_len x).hello
        ≡ length (x.hello.serialize (Hello.control_channel_hello current_proto_version nonce))
      → (packet_len x).hello ≡ length (greeting service)
      → (packet_len x).auth ≡ length (x.auth.serialize (answer token nonce))
      → Distinct key1 channels
      → item_of key2
          (digest x (as_bytes token ++ nonce))
          (without key1 (digest x (as_bytes service.name)) channels)
        ≡ none
      → (handshake x service (record {
        incoming = server_sends nonce ++ rest;
        outgoing = [];
        writes = suc (suc (suc (suc n)));
      })
          ≡ (
            record { incoming = rest; outgoing = client_sends service token nonce; writes = n },
            ok (digest x (as_bytes token ++ nonce)),
          ))
        × (handle_connection x services nonce (record {
          conn = record {
            incoming = client_sends service token nonce ++ rest;
            outgoing = [];
            writes = suc (suc (suc (suc n)));
          };
          channels = channels;
        })
            ≡ (
              record {
                conn = record { incoming = rest; outgoing = server_sends nonce; writes = n };
                channels =
                    (digest x (as_bytes service.name), digest x (as_bytes token ++ nonce), h)
                    ∷ without key1 (digest x (as_bytes service.name)) channels;
              },
              ok tt,
            ))
  handshake-handle_connection fh fau fac services nonce service c token h channels rest n st q t nh
        ln ld la one i2 =
      (
        rw
            (append_assoc
              (x.hello.serialize (Hello.control_channel_hello current_proto_version nonce))
              (x.ack.serialize Ack.accepted) rest)
            (handshake-accepted fh fac service token nonce rest [] n st ln),
        rw (append_assoc (greeting service) (x.auth.serialize (answer token nonce)) rest) (
            handle_connection-accepted fh fau services nonce (digest x (as_bytes service.name)) c
              token h channels rest [] n q t nh ld la one i2),
      )
