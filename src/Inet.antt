-- ===== src/Inet.antt =====
-- zbaselib_socket.c: internet addresses as text, `inet_pton4`, `inet_ntop4`, `inet_pton6`, `inet_ntop6`.
pub mod Chars
pub mod Bytes
pub mod V4
pub mod V6
mod Tests
