-- ===== src/Mutex.antt =====
-- zbaselib_thread.c, the mutex of the POSIX branch: thin guards over pthread, whose own calls are
-- parameters. A `zbaselib_mutex_t` is a pointer, so it may be NULL.
pub mod Defs
pub mod Laws
