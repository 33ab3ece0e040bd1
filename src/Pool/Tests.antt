-- ===== src/Pool/Tests.antt =====
-- A run of a pool of one worker: a task is added, the pool is destroyed with `finish`, and the worker does
-- the task and leaves.
use zbaselib.Prelude.{ℕ, ◌<◌, true, ◌≡◌, ◌≢◌, refl, Option, none, some, [], ◌∷◌, ◌++◌, arith}
use zbaselib.Pool.Defs.{
  freed, exited, adder, Pool, create, work, acquire, addtask, destroy, works, calls, adds, destroys,
  rouses, Reached, created, after, roused,
}
use zbaselib.Pool.Inv.{Has, IsServed, in_section}
use zbaselib.Pool.Safe.{Reached-fifo, destroy-finish}

-- The pool after an event, with task 7 for the caller, or the same pool where it cannot happen.
abbrev or_same : Pool ℕ → Option (Pool ℕ) → Pool ℕ
or_same p none = p
or_same p (some p') = p'

abbrev goes : Pool ℕ → Pool ℕ
goes p = or_same p (work 0 (p.place 0) p)

abbrev comes : Pool ℕ → Pool ℕ
comes p = or_same p (acquire (adder 7) p)

abbrev grown : Pool ℕ → Pool ℕ
grown p = (addtask 7 p).1

abbrev ends : Pool ℕ → Pool ℕ
ends p = or_same p (destroy true p.ending p)

abbrev wakes_up : Pool ℕ → Pool ℕ
wakes_up p = record p { ending = roused }

-- The task is in the queue, and destroy waits until it is empty.
abbrev asleep : Pool ℕ
asleep = ends (ends (ends (grown (comes (goes (create 1))))))

-- The worker is in its section with the task.
abbrev in_work : Pool ℕ
in_work = goes (goes (goes asleep))

-- All is done.
abbrev all_over : Pool ℕ
all_over = ends (goes (goes (ends (ends (ends (wakes_up (goes (goes (goes (goes in_work))))))))))

asleep-Reached : Reached true 1 asleep
unfolding create work acquire addtask destroy
asleep-Reached =
    after
      (after
        (after
          (after
            (after (after created (works 0 _ (omega arith) refl))
              (calls 7 _ (λ e. ground (arith, e)) refl))
            (adds 7 refl))
          (destroys _ refl))
        (destroys _ refl))
      (destroys _ refl)

in_work-Reached : Reached true 1 in_work
unfolding create work acquire addtask destroy
in_work-Reached =
    after
      (after (after asleep-Reached (works 0 _ (omega arith) refl)) (works 0 _ (omega arith) refl))
      (works 0 _ (omega arith) refl)

all_over-Reached : Reached true 1 all_over
unfolding create work acquire addtask destroy
all_over-Reached =
    after
      (after
        (after
          (after
            (after
              (after
                (after
                  (after
                    (after
                      (after (after in_work-Reached (works 0 _ (omega arith) refl))
                        (works 0 _ (omega arith) refl))
                      (works 0 _ (omega arith) refl))
                    (works 0 _ (omega arith) refl))
                  (rouses refl))
                (destroys _ refl))
              (destroys _ refl))
            (destroys _ refl))
          (works 0 _ (omega arith) refl))
        (works 0 _ (omega arith) refl))
      (destroys _ refl)

all_over-freed : all_over.ending ≡ freed
unfolding create work acquire addtask destroy
all_over-freed = refl

destroy-finish_example :
    (all_over.taken ≡ all_over.added)
    × ((t : ℕ) → Has t all_over.added → Has t all_over.done)
    × ((i : ℕ) → i < all_over.size → all_over.place i ≡ exited)
destroy-finish_example = destroy-finish 1 all_over all_over-Reached all_over-freed

asleep-kept : asleep.ending ≢ freed
unfolding create work acquire addtask destroy
asleep-kept e = ground (arith, e)

Reached-fifo_example :
    (asleep.taken ++ asleep.task_queue ≡ asleep.added)
    × ((t : ℕ) → Has t asleep.taken → IsServed asleep t)
Reached-fifo_example = Reached-fifo true 1 asleep asleep-Reached asleep-kept

in_work-section : in_section (in_work.place 0) ≡ true
unfolding create work acquire addtask destroy
in_work-section = refl

-- The task was done once.
all_done : (all_over.added ≡ 7 ∷ []) × (all_over.done ≡ 7 ∷ [])
unfolding create work acquire addtask destroy
all_done = (refl, refl)
