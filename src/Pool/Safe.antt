-- ===== src/Pool/Safe.antt =====
-- zbaselib_thread.c, the thread pool: what it promises.
use zbaselib.Prelude.{
  ℕ, zero, suc, ◌<◌, Bool, true, false, ltb, ◌≡◌, ◌≢◌, refl, sym, subst, some, ◌++◌, arith, inl,
  inr, Bool-cases,
}
use zbaselib.Prelude.Int.{ℤ, pos, negsuc}
use zbaselib.Pool.Defs.{Place, exited, Ending, freed, worker, Pool, count_idle, Reached}
use zbaselib.Pool.Inv.{Has, in_section, status_of, destroyer_in_section, is_freed, IsServed, Inv}
use zbaselib.Pool.Calls.{Reached-Inv}

-- In every state of a pool, until it is freed: the tasks taken by workers and the queue after them are
-- the tasks that addtask accepted, in order, so that each of them is taken at most once, and first in
-- first out; and a task that was taken is done or a worker runs it.
pub Reached-fifo :
    {T : Type 0} (finish : Bool) (size : ℕ) (p : Pool T)
    → Reached finish size p
    → p.ending ≢ freed
    → (p.taken ++ p.task_queue ≡ p.added) × ((t : T) → Has t p.taken → IsServed p t)
Reached-fifo finish size p r alive =
    let inv : Inv finish p = Reached-Inv finish size p r in
    (inv.order (unfreed p.ending alive), inv.served)
  where
    unfreed : (e : Ending) → e ≢ freed → is_freed e ≡ false
    unfreed freed ne = absurd (ne refl)
    unfreed _ ne = ground (arith, ne)

-- When zbaselib_threadpool_destroy(thiz, 1) frees the pool, all workers have left, and all the tasks that
-- addtask accepted were taken and are done.
pub destroy-finish :
    {T : Type 0} (size : ℕ) (p : Pool T)
    → Reached true size p
    → p.ending ≡ freed
    → (p.taken ≡ p.added)
      × ((t : T) → Has t p.added → Has t p.done)
      × ((i : ℕ) → i < p.size → p.place i ≡ exited)
destroy-finish {T} size p r gone =
    let inv : Inv true p = Reached-Inv true size p r in
    let is_gone : is_freed p.ending ≡ true = ground (arith, gone) in
    let all : p.taken ≡ p.added = inv.order_freed refl is_gone in
    (
      all,
      λ t h. elim (inv.served t (subst (Has t) (sym all) h)) [
        | inl d ↦ d
        | inr (i, at) ↦ elim (Bool-cases (ltb i p.size)) [
          | inl lt ↦ absurd (ground (arith, at, inv.all_out is_gone i (ground arith)))
          | inr le ↦ absurd (ground (arith, at, inv.no_more i (ground arith)))
        ]
      ],
      inv.all_out is_gone,
    )

-- The mutex keeps the sections apart: two workers in a section are one, and no worker is in a section
-- while the caller of destroy is.
Reached-exclusive :
    {T : Type 0} (finish : Bool) (size : ℕ) (p : Pool T) (i : ℕ)
    → Reached finish size p
    → in_section (p.place i) ≡ true
    → ((j : ℕ) → in_section (p.place j) ≡ true → i ≡ j) × (destroyer_in_section p.ending ≡ false)
Reached-exclusive finish size p i r sec =
    let inv : Inv finish p = Reached-Inv finish size p r in
    let mine : p.holder ≡ some (worker i) = inv.holds i sec in
    (
      λ j sec'. ground (arith, mine, inv.holds j sec'),
      elim (Bool-cases (destroyer_in_section p.ending)) [
        | inl both ↦ ground (arith, mine, inv.destroyer_holds both)
        | inr apart ↦ apart
      ],
    )

-- The number of workers below `n` with no task, and not about to start.
abbrev pub idle_workers : {T : Type 0} → ℕ → (ℕ → Place T) → ℕ
idle_workers zero place = 0
idle_workers (suc n) place =
    let rest = idle_workers n place in
    elim (status_of (place n)) [ pos zero ↦ suc rest | pos (suc k) ↦ rest | negsuc k ↦ rest ]

count_idle_lem :
    {T : Type 0} (n : ℕ) (th_status : ℕ → ℤ) (place : ℕ → Place T)
    → ((i : ℕ) → i < n → th_status i ≡ status_of (place i))
    → count_idle n th_status ≡ idle_workers n place
unfolding count_idle
count_idle_lem zero th_status place h = refl
count_idle_lem (suc n) th_status place h =
    let rest = count_idle_lem n th_status place (λ i lt. h i (omega arith)) in
    ground (arith, h n (omega arith), rest)

-- `zbaselib_threadpool_status` tells the number of workers that are idle: neither about to start nor busy
-- with a task.
count_idle-Reached :
    {T : Type 0} (finish : Bool) (size : ℕ) (p : Pool T)
    → Reached finish size p
    → count_idle p.size p.th_status ≡ idle_workers p.size p.place
count_idle-Reached finish size p r =
    count_idle_lem p.size p.th_status p.place (Reached-Inv finish size p r).status
