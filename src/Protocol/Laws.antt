-- ===== src/Protocol/Laws.antt =====
-- The version check of a hello (rathole/src/protocol.rs: read_hello).
use rathole_with_proxy.Base.{ℕ, ◌≡◌, ap, sym, ◌∙◌, arith}
use rathole_with_proxy.Protocol.{Codec, Hello, read_hello, check_version, current_proto_version}
use rathole_with_proxy.Protocol.Stream.{Conn, ok, bind_inverse}

abbrev pub version_of : Hello → ℕ
version_of (Hello.control_channel_hello v d) = v
version_of (Hello.data_channel_hello v d) = v

check_version-version_of :
    (x : Codec) (h k : Hello) (c : Conn)
    → (check_version x h c).1 ≡ ok k
    → (h ≡ k) × (version_of h ≡ current_proto_version)
check_version-version_of x (Hello.control_channel_hello v d) k c h = ground (arith)
check_version-version_of x (Hello.data_channel_hello v d) k c h = ground (arith)

-- A hello that `read_hello` accepts has the version of this program, whatever bytes come in.
pub read_hello-version_of :
    (x : Codec) (k : Hello) (c : Conn)
    → (read_hello x c).1 ≡ ok k
    → version_of k ≡ current_proto_version
unfolding read_hello
read_hello-version_of x k c h =
    let (t, a, q, r) = bind_inverse _ _ c k h in
    let same = check_version-version_of x a k t r in ap version_of (sym same.0) ∙ same.1
