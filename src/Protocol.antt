-- ===== src/Protocol.antt =====
-- The messages between tunnel server and tunnel client and their transfer
-- (rathole/src/protocol.rs). The encodings of bincode and SHA-256 are parameters.
pub mod Stream
pub mod Laws
pub mod Udp
use rathole_with_proxy.Base.{
  ℕ, ◌+◌, ◌*◌, ◌/◌, ◌%◌, ◌^◌, Bool, Option, none, some, List, [], ◌∷◌, ◌++◌, codes, Text, Bytes,
  length, eqb, ltb, if◌then◌else◌,
}
use rathole_with_proxy.Protocol.Stream.{
  Error, Conn, Io, ◌>>=◌, pure, bail, ok_or, read_exact, read_u8, write_all,
}

abbrev pub hash_width_in_bytes : ℕ
hash_width_in_bytes = 32

abbrev pub current_proto_version : ℕ
current_proto_version = 1

abbrev pub Digest : Type 0
Digest = Bytes

pub data Hello : Type 0 where
  control_channel_hello data_channel_hello : (version : ℕ) (d : Digest) → Hello

pub record Auth : Type 0 where
  pub digest : Digest

pub data Ack : Type 0 where
  accepted service_not_exist auth_failed : Ack

pub data ControlChannelCmd : Type 0 where
  create_data_channel heart_beat : ControlChannelCmd

pub data DataChannelCmd : Type 0 where
  start_forward_tcp start_forward_udp : DataChannelCmd

-- `A` is the type of socket addresses.
pub record UdpHeader (A : Type 0) : Type 0 where
  pub from : A
  pub len : ℕ

pub record UdpTraffic (A : Type 0) : Type 0 where
  pub from : A
  pub data_bytes : Bytes

-- An encoding of bincode.
pub record Format (A : Type 0) : Type 0 where
  pub serialize : A → Bytes
  pub deserialize : Bytes → Option A

-- What the protocol takes from bincode and sha2.
pub record Codec : Type 0 where
  pub hello : Format Hello
  pub auth : Format Auth
  pub ack : Format Ack
  pub control_cmd : Format ControlChannelCmd
  pub data_cmd : Format DataChannelCmd
  pub sha256 : Bytes → Digest

-- One code point in UTF-8.
abbrev pub utf8 : ℕ → Bytes
utf8 c =
    if ltb c 128
    then c ∷ []
    else if ltb c 2048
    then (192 + c / 64) ∷ (128 + c % 64) ∷ []
    else if ltb c 65536
    then (224 + c / 4096) ∷ (128 + c / 64 % 64) ∷ (128 + c % 64) ∷ []
    else (240 + c / 262144) ∷ (128 + c / 4096 % 64) ∷ (128 + c / 64 % 64) ∷ (128 + c % 64) ∷ []

abbrev pub as_bytes : Text → Bytes
as_bytes [] = []
as_bytes (c ∷ s) = utf8 c ++ as_bytes s

module _ (x : Codec) where
  abbrev pub digest : Bytes → Digest
  digest bs = x.sha256 bs

  pub record PacketLength : Type 0 where
    pub hello : ℕ
    pub ack : ℕ
    pub auth : ℕ
    pub c_cmd : ℕ
    pub d_cmd : ℕ

  abbrev pub packet_len : PacketLength
  packet_len =
      let d = digest (as_bytes (codes "default")) in
      record {
        hello = length (x.hello.serialize (Hello.control_channel_hello current_proto_version d));
        ack = length (x.ack.serialize Ack.accepted);
        auth = length (x.auth.serialize (record { digest = d }));
        c_cmd = length (x.control_cmd.serialize ControlChannelCmd.create_data_channel);
        d_cmd = length (x.data_cmd.serialize DataChannelCmd.start_forward_tcp);
      }

  abbrev pub read_format : {A : Type 0} → Format A → ℕ → Io Conn A
  read_format format n = do buf ← read_exact n; ok_or (format.deserialize buf) Error.undecodable

  abbrev pub check_version : Hello → Io Conn Hello
  check_version (Hello.control_channel_hello v d) =
      if eqb v current_proto_version
      then pure (Hello.control_channel_hello v d)
      else bail Error.version_mismatch
  check_version (Hello.data_channel_hello v d) =
      if eqb v current_proto_version
      then pure (Hello.data_channel_hello v d)
      else bail Error.version_mismatch

  unfoldable pub read_hello : Io Conn Hello
  unfolding read_exact
  read_hello = do hello ← read_format x.hello packet_len.hello; check_version hello

  unfoldable pub read_auth : Io Conn Auth
  unfolding read_exact
  read_auth = read_format x.auth packet_len.auth

  unfoldable pub read_ack : Io Conn Ack
  unfolding read_exact
  read_ack = read_format x.ack packet_len.ack

  unfoldable pub read_control_cmd : Io Conn ControlChannelCmd
  unfolding read_exact
  read_control_cmd = read_format x.control_cmd packet_len.c_cmd

  unfoldable pub read_data_cmd : Io Conn DataChannelCmd
  unfolding read_exact
  read_data_cmd = read_format x.data_cmd packet_len.d_cmd

module _ {A : Type 0} (format : Format (UdpHeader A)) where
  -- `write_slice`: the length goes out as a `u16`, and that of its header as a `u8`.
  unfoldable pub write_slice : A → Bytes → Io Conn (Unit {0})
  unfolding write_all
  write_slice from bs = do
    let v = format.serialize (record { from = from; len = length bs % 2 ^ 16 })
    a ← write_all ((length v % 2 ^ 8) ∷ [])
    b ← write_all v
    write_all bs

  unfoldable pub write : UdpTraffic A → Io Conn (Unit {0})
  unfolding write_all
  write t = do
    let v = format.serialize (record { from = t.from; len = length t.data_bytes % 2 ^ 16 })
    a ← write_all ((length v % 2 ^ 8) ∷ [])
    b ← write_all v
    write_all t.data_bytes

  unfoldable pub read : ℕ → Io Conn (UdpTraffic A)
  unfolding read_exact
  read hdr_len = do
    buf ← read_exact hdr_len
    hdr ← ok_or (format.deserialize buf) Error.undecodable
    data_read ← read_exact hdr.len
    pure (record { from = hdr.from; data_bytes = data_read })

  -- What both ends of a UDP channel do with it: `read_u8`, then `read`.
  unfoldable pub receive : Io Conn (UdpTraffic A)
  unfolding read read_u8
  receive = do hdr_len ← read_u8; read hdr_len
