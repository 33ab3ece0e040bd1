-- ===== src/Mutex/Defs.antt =====
-- zbaselib_thread.c, the mutex of the POSIX branch. pthread's calls are parameters: each takes the
-- mutex and gives its status and the mutex after the call.
use zbaselib.Prelude.{Option, none, some, if◌then◌else◌}
use zbaselib.Prelude.Int.{ℤ, negsuc, is_zero}

module _ {M : Type 0} where
  -- `block` is what malloc returned.
  unfoldable pub mutex_create : (pthread_mutex_init : M → ℤ × M) → Option M → Option M
  mutex_create pthread_mutex_init none = none
  mutex_create pthread_mutex_init (some lock) =
      let (r, lock') = pthread_mutex_init lock in if is_zero r then some lock' else none

  unfoldable pub mutex_lock : (pthread_mutex_lock : M → ℤ × M) → Option M → ℤ × Option M
  mutex_lock pthread_mutex_lock none = (negsuc 0, none)
  mutex_lock pthread_mutex_lock (some mutex) =
      let (r, mutex') = pthread_mutex_lock mutex in (r, some mutex')

  unfoldable pub mutex_unlock : (pthread_mutex_unlock : M → ℤ × M) → Option M → ℤ × Option M
  mutex_unlock pthread_mutex_unlock none = (negsuc 0, none)
  mutex_unlock pthread_mutex_unlock (some mutex) =
      let (r, mutex') = pthread_mutex_unlock mutex in (r, some mutex')
