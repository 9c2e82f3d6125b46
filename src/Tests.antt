-- ===== src/Tests.antt =====
-- Concrete inputs for the theorems, a module for each part of the program.
pub mod Health
pub mod Choose
pub mod Handler
pub mod Table
pub mod Wire
pub mod Sessions
pub mod Settings
pub mod Sockets
pub mod Datagrams
pub mod Json
pub mod Exchanges
pub mod Running
pub mod Retries
pub mod Transports
pub mod Logins
pub mod Locking
pub mod Relays
pub mod Fair
