-- ===== src/Socket.antt =====
-- zbaselib_socket.c: sending and receiving on a socket.
pub mod Defs
pub mod Laws
pub mod Retry
mod Tests
