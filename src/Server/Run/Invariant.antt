-- ===== src/Server/Run/Invariant.antt =====
-- What the removal of a control channel keeps (rathole/src/server.rs: handle_hot_reload and
-- do_control_channel_handshake).
use rathole_with_proxy.Base.{text_eq}
use rathole_with_proxy.MultiMap.{key1, key2}
use rathole_with_proxy.MultiMap.Table.{without}
use rathole_with_proxy.MultiMap.Distinct.{Distinct-without}
use rathole_with_proxy.Protocol.{Digest}
use rathole_with_proxy.Server.{ControlChannelMap}
use rathole_with_proxy.Server.Handshake.{OneEach}

pub without-OneEach : (d : Digest) (c : ControlChannelMap) → OneEach c → OneEach (without key1 d c)
without-OneEach d c h = (Distinct-without key1 key1 d c h.0, Distinct-without key1 key2 d c h.1)
