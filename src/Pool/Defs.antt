-- ===== src/Pool/Defs.antt =====
-- zbaselib_thread.c, the thread pool. A step is what one thread does up to the next place where another
-- one may come between: a call of the mutex or of a condition, a job, and in a section under the mutex
-- the test of a loop. What waits on a condition may wake at any time, as POSIX allows, so that the
-- signals need no step of their own.
use zbaselib.Prelude.{
  ℕ, zero, suc, Bool, true, false, not, ◌&&◌, ◌==◌, ltb, if◌then◌else◌, ◌≡◌, ◌≢◌, ◌<◌, Option, none,
  some, List, [], ◌∷◌, ◌++◌,
}
use zbaselib.Prelude.Int.{ℤ, pos, negsuc}

-- Where a worker is in zbaselib_threadpool_func; `entered`, `testing`, `taking` and `resetting` hold the
-- mutex.
pub data Place (T : Type 0) : Type 0 where
  starting at_lock entered testing waiting woken taking : Place T
  running : T → Place T
  finishing resetting exited : Place T

-- Where the caller of zbaselib_threadpool_destroy is.
pub data Ending : Type 0 where
  uncalled inside checking sleeping roused stopping joining freed returned : Ending

-- Who holds the mutex: a worker, a caller of addtask with its task, or the caller of destroy.
pub data Holder (T : Type 0) : Type 0 where
  worker : ℕ → Holder T
  adder : T → Holder T
  destroyer : Holder T

-- `struct _zbaselib_threadpool_t` with its mutex, the places of the threads, and a record of the tasks
-- that were added, taken from the queue and done.
pub record Pool (T : Type 0) : Type 0 where
  pub size : ℕ
  pub th_status : ℕ → ℤ
  pub task_queue : List T
  pub stop : Bool
  pub holder : Option (Holder T)
  pub place : ℕ → Place T
  pub ending : Ending
  pub added : List T
  pub taken : List T
  pub done : List T

-- ZBASELIB_THREADPOOL_MAX
abbrev pub max_size : ℕ
max_size = 20

unfoldable pub set_at {ℓ} : {A : Type ℓ} → ℕ → A → (ℕ → A) → ℕ → A
set_at i x f j = if j == i then x else f j

-- zbaselib_threadpool_status
unfoldable pub count_idle : (n : ℕ) → (ℕ → ℤ) → ℕ
count_idle zero th_status = 0
count_idle (suc n) th_status =
    let rest = count_idle n th_status in
    elim (th_status n) [ pos zero ↦ suc rest | pos (suc k) ↦ rest | negsuc k ↦ rest ]

module _ {T : Type 0} where
  -- The pool that create makes where no call fails, with its threads made and none of them run yet.
  unfoldable pub create : (size : ℕ) → Pool T
  create size = record {
    size = if ltb size max_size then size else max_size;
    th_status = λ i. negsuc 0;
    task_queue = [];
    stop = false;
    holder = none;
    place = λ i. starting;
    ending = uncalled;
    added = [];
    taken = [];
    done = [];
  }

  unfoldable pub move : ℕ → Place T → Pool T → Pool T
  unfolding set_at
  move i to p = record p { place = set_at i to p.place }

  unfoldable pub leave : ℕ → Place T → Pool T → Pool T
  unfolding move
  leave i to p = record (move i to p) { holder = none }

  -- zbaselib_mutex_lock: blocked, here `none`, as long as another one holds it.
  unfoldable pub acquire : Holder T → Pool T → Option (Pool T)
  acquire who p = elim p.holder [ none ↦ some (record p { holder = some who }) | some other ↦ none ]

  unfoldable pub enter : ℕ → Place T → Pool T → Option (Pool T)
  unfolding move
  enter i to p = elim p.holder [
    | none ↦ some (record (move i to p) { holder = some (worker i) })
    | some other ↦ none
  ]

  -- The section after the wait: the head of the queue is taken, or the loop begins again.
  unfoldable pub take_task : ℕ → List T → Pool T → Pool T
  unfolding leave set_at
  take_task i [] p = leave i at_lock p
  take_task i (t ∷ rest) p = record (leave i (running t) p) {
    task_queue = rest;
    th_status = set_at i (pos 1) p.th_status;
    taken = p.taken ++ t ∷ [];
  }

  unfoldable pub is_empty : List T → Bool
  is_empty [] = true
  is_empty (t ∷ ts) = false

  -- The next step of worker `i` from its place; `none` where it is blocked.
  unfoldable pub work : ℕ → Place T → Pool T → Option (Pool T)
  unfolding take_task enter leave move set_at
  work i starting p = some (record (move i at_lock p) { th_status = set_at i (pos 0) p.th_status })
  work i at_lock p = enter i entered p
  work i entered p = if p.stop then some (leave i exited p) else some (move i testing p)
  work i testing p =
      if not p.stop && is_empty p.task_queue
      then some (leave i waiting p)
      else some (move i taking p)
  work i waiting p = none
  work i woken p = enter i testing p
  work i taking p = some (take_task i p.task_queue p)
  work i (running t) p = some (record (move i finishing p) { done = p.done ++ t ∷ [] })
  work i finishing p = enter i resetting p
  work i resetting p =
      some (record (leave i at_lock p) { th_status = set_at i (pos 0) p.th_status })
  work i exited p = none

  -- zbaselib_threadpool_addtask with the mutex: its result, and the pool after the unlock.
  unfoldable pub addtask : T → Pool T → ℤ × Pool T
  addtask t p = if p.stop then (negsuc 0, record p { holder = none }) else (
    pos 0,
    record p { holder = none; task_queue = p.task_queue ++ t ∷ []; added = p.added ++ t ∷ [] },
  )

  unfoldable pub has_exited : Place T → Bool
  has_exited exited = true
  has_exited _ = false

  -- Whether the first `n` workers can be joined.
  unfoldable pub all_exited : (n : ℕ) → (ℕ → Place T) → Bool
  unfolding has_exited
  all_exited zero place = true
  all_exited (suc n) place = has_exited (place n) && all_exited n place

  -- The next step of zbaselib_threadpool_destroy(thiz, finish) from its place. The joins are one step,
  -- with the release of the queue after them.
  unfoldable pub destroy : (finish : Bool) → Ending → Pool T → Option (Pool T)
  unfolding all_exited acquire is_empty
  destroy finish uncalled p = elim (acquire destroyer p) [
    | none ↦ none
    | some p' ↦ some (record p' { ending = inside })
  ]
  destroy finish inside p =
      if p.stop
      then some (record p { ending = returned; holder = none })
      else some (record p { ending = if finish then checking else stopping })
  destroy finish checking p =
      if is_empty p.task_queue
      then some (record p { ending = stopping })
      else some (record p { ending = sleeping; holder = none })
  destroy finish sleeping p = none
  destroy finish roused p = elim (acquire destroyer p) [
    | none ↦ none
    | some p' ↦ some (record p' { ending = checking })
  ]
  destroy finish stopping p = some (record p { ending = joining; stop = true; holder = none })
  destroy finish joining p =
      if all_exited p.size p.place
      then some (record p { ending = freed; task_queue = [] })
      else none
  destroy finish freed p = none
  destroy finish returned p = none

-- The steps of a pool that is destroyed once, with `finish`. A caller of addtask comes before the pool is
-- freed.
pub data Step {T : Type 0} (finish : Bool) (p : Pool T) : Pool T → Type 0 where
  works : (i : ℕ) (p' : Pool T) → i < p.size → work i (p.place i) p ≡ some p' → Step finish p p'
  wakes : (i : ℕ) → i < p.size → p.place i ≡ waiting → Step finish p (move i woken p)
  calls :
      (t : T) (p' : Pool T) → p.ending ≢ freed → acquire (adder t) p ≡ some p' → Step finish p p'
  adds : (t : T) → p.holder ≡ some (adder t) → Step finish p (addtask t p).1
  destroys : (p' : Pool T) → destroy finish p.ending p ≡ some p' → Step finish p p'
  rouses : p.ending ≡ sleeping → Step finish p (record p { ending = roused })

-- What a pool can come to.
pub data Reached {T : Type 0} (finish : Bool) (size : ℕ) : Pool T → Type 0 where
  created : Reached finish size (create size)
  after : {p p' : Pool T} → Reached finish size p → Step finish p p' → Reached finish size p'
