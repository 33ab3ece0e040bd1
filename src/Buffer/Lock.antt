-- ===== src/Buffer/Lock.antt =====
-- zbaselib_buffer.c: what ZBUFFER_LOCK and ZBUFFER_UNLOCK do to a ring around a call's body.
use zbaselib.Prelude.{◌≡◌, arith}
use zbaselib.Prelude.Int.{ℤ}
use zbaselib.Mutex.Laws.{IsBalanced, mutex_unlock-mutex_lock}
use zbaselib.Buffer.Defs.{Buffer, zbuffer_lock, zbuffer_unlock}
use zbaselib.Buffer.Inv.{IsValid}

module _ {M : Type 0} (lock unlock : M → ℤ × M) where
  -- The lock changes nothing but the mutex.
  pub zbuffer_lock-mutex :
      (b : Buffer M)
      → zbuffer_lock lock unlock b ≡ record b { mutex = (zbuffer_lock lock unlock b).mutex }
  unfolding zbuffer_lock
  zbuffer_lock-mutex b = ground arith

  pub zbuffer_lock-IsValid : (b : Buffer M) → IsValid b → IsValid (zbuffer_lock lock unlock b)
  zbuffer_lock-IsValid b v = ground (arith, zbuffer_lock-mutex b)

  -- After the body of a call, which leaves flag and mutex alone, the mutex is as before the call.
  pub zbuffer_unlock-zbuffer_lock :
      (b c : Buffer M)
      → IsBalanced lock unlock
      → c.islock ≡ b.islock
      → c.mutex ≡ (zbuffer_lock lock unlock b).mutex
      → zbuffer_unlock lock unlock c ≡ record c { mutex = b.mutex }
  unfolding zbuffer_lock zbuffer_unlock
  zbuffer_unlock-zbuffer_lock b c balanced same locked =
      ground (arith, mutex_unlock-mutex_lock lock unlock balanced b.mutex)
