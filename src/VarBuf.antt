-- ===== src/VarBuf.antt =====
-- The paged byte buffer `var_buf_t` of boost/coroutine/util/var_buf.h.
pub mod State
pub mod Ops
pub mod Contents
pub mod Position
pub mod Queue
pub mod Examples
pub mod Views
pub mod Search
pub mod Sizes
