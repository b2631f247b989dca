-- ===== src/Coroutine.antt =====
-- The coroutine runtime (boost/coroutine/coroutine/coroutine.h and coroutine.cpp).
pub mod State
pub mod Flags
pub mod Machine
pub mod Walk
pub mod Busy
pub mod History
pub mod Resume
pub mod RoundRobin
pub mod Mailbox
pub mod Network
pub mod Memory
pub mod Names
pub mod Examples
pub mod Queries
