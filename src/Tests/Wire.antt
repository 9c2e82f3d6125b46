-- ===== src/Tests/Wire.antt =====
-- Encodings, and inputs for rathole/src/protocol.rs, server.rs and client.rs.
use rathole_with_proxy.Base.{
  ℕ, zero, suc, ◌+◌, ◌%◌, ◌^◌, ◌≡◌, refl, Option, none, some, [], ◌∷◌, ◌++◌, Bytes, take, drop,
  arith,
}
use rathole_with_proxy.Protocol.{
  Codec, Format, Hello, Ack, ControlChannelCmd, DataChannelCmd, UdpHeader, UdpTraffic, write,
  receive, read_hello,
}
use rathole_with_proxy.Protocol.Stream.{Conn, ◌>>=◌, ok, read_exact}
use rathole_with_proxy.Protocol.Udp.{IsFormat, receive-write}

-- The kind, the version and the digest.
abbrev pub decode_hello : Bytes → Option Hello
decode_hello [] = none
decode_hello (k ∷ []) = none
decode_hello (zero ∷ v ∷ d) = some (Hello.control_channel_hello v d)
decode_hello (suc k ∷ v ∷ d) = some (Hello.data_channel_hello v d)

abbrev pub encode_hello : Hello → Bytes
encode_hello (Hello.control_channel_hello v d) = 0 ∷ v ∷ d
encode_hello (Hello.data_channel_hello v d) = 1 ∷ v ∷ d

abbrev pub encode_ack : Ack → Bytes
encode_ack Ack.accepted = 0 ∷ []
encode_ack Ack.service_not_exist = 1 ∷ []
encode_ack Ack.auth_failed = 2 ∷ []

abbrev pub decode_ack : Bytes → Option Ack
decode_ack [] = none
decode_ack (zero ∷ b) = some Ack.accepted
decode_ack (suc zero ∷ b) = some Ack.service_not_exist
decode_ack (suc (suc n) ∷ b) = some Ack.auth_failed

abbrev pub decode_control_cmd : Bytes → Option ControlChannelCmd
decode_control_cmd [] = none
decode_control_cmd (zero ∷ b) = some ControlChannelCmd.create_data_channel
decode_control_cmd (suc n ∷ b) = some ControlChannelCmd.heart_beat

abbrev pub encode_control_cmd : ControlChannelCmd → Bytes
encode_control_cmd ControlChannelCmd.create_data_channel = 0 ∷ []
encode_control_cmd ControlChannelCmd.heart_beat = 1 ∷ []

abbrev pub decode_data_cmd : Bytes → Option DataChannelCmd
decode_data_cmd [] = none
decode_data_cmd (zero ∷ b) = some DataChannelCmd.start_forward_tcp
decode_data_cmd (suc n ∷ b) = some DataChannelCmd.start_forward_udp

abbrev pub encode_data_cmd : DataChannelCmd → Bytes
encode_data_cmd DataChannelCmd.start_forward_tcp = 0 ∷ []
encode_data_cmd DataChannelCmd.start_forward_udp = 1 ∷ []

abbrev pub sum : Bytes → ℕ
sum [] = 0
sum (b ∷ bs) = b + sum bs

-- A codec whose digests are sums.
abbrev pub codec : Codec
codec = record {
  hello = record { serialize = encode_hello; deserialize = decode_hello };
  auth = record { serialize = λ a. a.digest; deserialize = λ bs. some (record { digest = bs }) };
  ack = record { serialize = encode_ack; deserialize = decode_ack };
  control_cmd = record { serialize = encode_control_cmd; deserialize = decode_control_cmd };
  data_cmd = record { serialize = encode_data_cmd; deserialize = decode_data_cmd };
  sha256 = λ bs. sum bs ∷ [];
}

pub hello-IsFormat : IsFormat codec.hello
hello-IsFormat (Hello.control_channel_hello v d) = refl
hello-IsFormat (Hello.data_channel_hello v d) = refl

pub auth-IsFormat : IsFormat codec.auth
auth-IsFormat a = refl

pub ack-IsFormat : IsFormat codec.ack
ack-IsFormat Ack.accepted = refl
ack-IsFormat Ack.service_not_exist = refl
ack-IsFormat Ack.auth_failed = refl

abbrev decode_header : Bytes → Option (UdpHeader ℕ)
decode_header [] = none
decode_header (a ∷ []) = none
decode_header (a ∷ b ∷ c) = some (record { from = a; len = b })

abbrev pub header : Format (UdpHeader ℕ)
header = record { serialize = λ h. h.from ∷ h.len ∷ []; deserialize = decode_header }

pub header-IsFormat : IsFormat header
header-IsFormat a = refl

abbrev datagram : UdpTraffic ℕ
datagram = record { from = 7; data_bytes = 1 ∷ 2 ∷ 3 ∷ [] }

receive-write_example :
    receive header (record {
      incoming =
          (write header datagram (record { incoming = []; outgoing = []; writes = 3 })).0.outgoing
          ++ 9 ∷ [];
      outgoing = [];
      writes = 0;
    })
    ≡ (
      record { incoming = drop (3 % 2 ^ 16) (1 ∷ 2 ∷ 3 ∷ []) ++ 9 ∷ []; outgoing = []; writes = 0 },
      ok (record { from = 7; data_bytes = take (3 % 2 ^ 16) (1 ∷ 2 ∷ 3 ∷ []) }),
    )
receive-write_example =
    receive-write header header-IsFormat datagram [] (9 ∷ []) [] 0 0 (omega arith)

abbrev greeted : Conn
greeted = record { incoming = 1 ∷ 1 ∷ 5 ∷ []; outgoing = []; writes = 0 }

reads_hello : (read_hello codec greeted).1 ≡ ok (Hello.data_channel_hello 1 (5 ∷ []))
unfolding read_hello read_exact ◌>>=◌
reads_hello = refl
