-- ===== src/Pool.antt =====
-- zbaselib_thread.c, the thread pool: its workers, its callers and its destruction as steps on one state.
pub mod Defs
pub mod Inv
pub mod Keep
pub mod Steps
pub mod Calls
pub mod Safe
mod Tests
