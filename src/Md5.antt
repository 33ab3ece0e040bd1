-- ===== src/Md5.antt =====
-- zbaselib_md5.c: the MD5 digest.
pub mod Steps
pub mod Bits
pub mod Rfc
pub mod Rounds
pub mod Meets
pub mod Defs
pub mod Blocks
pub mod Absorb
pub mod Update
pub mod Digest
pub mod Final
mod Tests
