-- ===== src/Mutex/Laws.antt =====
-- zbaselib_thread.c: a mutex that is locked and then unlocked is as it was.
use zbaselib.Prelude.{Option, none, some, ◌≡◌, refl, ap}
use zbaselib.Prelude.Int.{ℤ}
use zbaselib.Mutex.Defs.{mutex_lock, mutex_unlock}

-- pthread's promise to the thread that holds a mutex: unlocking it undoes the locking.
abbrev pub IsBalanced : {M : Type 0} → (M → ℤ × M) → (M → ℤ × M) → Type 0
IsBalanced {M} lock unlock = (m : M) → (unlock (lock m).1).1 ≡ m

pub mutex_unlock-mutex_lock :
    {M : Type 0} (lock unlock : M → ℤ × M)
    → IsBalanced lock unlock
    → (m : Option M) → (mutex_unlock unlock (mutex_lock lock m).1).1 ≡ m
unfolding mutex_lock mutex_unlock
mutex_unlock-mutex_lock lock unlock balanced none = refl
mutex_unlock-mutex_lock lock unlock balanced (some m) = ap some (balanced m)
