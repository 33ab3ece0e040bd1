-- ===== src/Inet/V6.antt =====
-- zbaselib_socket.c: `inet_pton6` and `inet_ntop6`.
pub mod Read
pub mod Write
pub mod Bounds
pub mod Ends
pub mod Fits
