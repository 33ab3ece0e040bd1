-- ===== src/Buffer.antt =====
-- zbaselib_buffer.c: the byte ring `zbaselib_buffer`.
pub mod Defs
pub mod Status
pub mod Fifo
pub mod Inv
pub mod Write
pub mod Lock
pub mod Copy
pub mod Read
pub mod Ask
pub mod Wrap
mod Tests
