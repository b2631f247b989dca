-- ===== src/Coasio.antt =====
-- The sockets of boost/coroutine/coasio, with the system's calls as parameters.
pub mod Address
pub mod Script
pub mod Socket
pub mod Service
