-- ===== src/Proxy.antt =====
-- The HTTP proxy in front of the tunnels (rathole/src/proxy.rs).
pub mod Choose
pub mod Http
pub mod Cookie
pub mod State
pub mod Forward
pub mod Handler
