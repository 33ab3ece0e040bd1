-- ===== src/Skbuffer.antt =====
-- zbaselib_socket.c, the socket buffer: a straight block that moves its bytes to the front or grows when
-- it has no room at its end.
pub mod Defs
pub mod Net
pub mod Inv
pub mod Room
pub mod Space
pub mod Write
pub mod Read
pub mod Recv
pub mod Drain
pub mod Send
pub mod Ask
mod Tests
