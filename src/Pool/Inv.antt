-- ===== src/Pool/Inv.antt =====
-- zbaselib_thread.c, the thread pool: what holds at every step.
use zbaselib.Prelude.{
  ℕ, ◌≤◌, ◌<◌, Bool, true, false, ◌==◌, if◌then◌else◌, ◌≡◌, ◌≢◌, refl, Option, some, List, [], ◌∷◌,
  ◌++◌, arith, ◌⊎◌, inl, inr, Bool-cases,
}
use zbaselib.Prelude.Int.{ℤ, pos, negsuc}
use zbaselib.Pool.Defs.{
  Place, starting, entered, testing, taking, running, finishing, resetting, exited, Ending, inside,
  checking, stopping, joining, freed, Holder, worker, destroyer, Pool, set_at, create,
}

-- A task in a list.
pub data Has {T : Type 0} (t : T) : List T → Type 0 where
  here : {ts : List T} → Has t (t ∷ ts)
  there : {u : T} {ts : List T} → Has t ts → Has t (u ∷ ts)

abbrev pub in_section : {T : Type 0} → Place T → Bool
in_section entered = true
in_section testing = true
in_section taking = true
in_section resetting = true
in_section _ = false

abbrev pub status_of : {T : Type 0} → Place T → ℤ
status_of starting = negsuc 0
status_of (running t) = pos 1
status_of finishing = pos 1
status_of resetting = pos 1
status_of _ = pos 0

abbrev pub destroyer_in_section : Ending → Bool
destroyer_in_section inside = true
destroyer_in_section checking = true
destroyer_in_section stopping = true
destroyer_in_section _ = false

-- From the end of the wait for the queue on.
abbrev pub is_drained : Ending → Bool
is_drained stopping = true
is_drained joining = true
is_drained freed = true
is_drained _ = false

abbrev pub is_stopped : Ending → Bool
is_stopped joining = true
is_stopped freed = true
is_stopped _ = false

abbrev pub is_freed : Ending → Bool
is_freed freed = true
is_freed _ = false

module _ {T : Type 0} where
  -- A task that was taken is done, or a worker runs it.
  abbrev pub IsServed : Pool T → T → Type 0
  IsServed p t = Has t p.done ⊎ ((i : ℕ) × (p.place i ≡ running t))

  pub record Inv (finish : Bool) (p : Pool T) : Type 0 where
    pub holds : (i : ℕ) → in_section (p.place i) ≡ true → p.holder ≡ some (worker i)
    pub destroyer_holds : destroyer_in_section p.ending ≡ true → p.holder ≡ some destroyer
    pub order : is_freed p.ending ≡ false → p.taken ++ p.task_queue ≡ p.added
    pub stopped : p.stop ≡ is_stopped p.ending
    pub drained : finish ≡ true → is_drained p.ending ≡ true → p.task_queue ≡ []
    pub order_freed : finish ≡ true → is_freed p.ending ≡ true → p.taken ≡ p.added
    pub all_out : is_freed p.ending ≡ true → (i : ℕ) → i < p.size → p.place i ≡ exited
    pub served : (t : T) → Has t p.taken → IsServed p t
    pub status : (i : ℕ) → i < p.size → p.th_status i ≡ status_of (p.place i)
    pub no_more : (i : ℕ) → p.size ≤ i → p.place i ≡ starting

  pub create-Inv : (finish : Bool) (size : ℕ) → Inv finish (create size)
  unfolding create
  create-Inv finish size = record {
    holds = λ i e. ground (arith, e);
    destroyer_holds = λ e. ground (arith, e);
    order = λ e. refl;
    stopped = refl;
    drained = λ e e'. refl;
    order_freed = λ e e'. refl;
    all_out = λ e i lt. ground (arith, e);
    served = λ t h. elim h [ ];
    status = λ i lt. refl;
    no_more = λ i le. refl;
  }

  -- A worker goes to another place, with or without the mutex.
  pub moved-Inv :
      (finish : Bool) (p : Pool T) (i : ℕ) (to : Place T) (holder : Option (Holder T))
      (th_status : ℕ → ℤ)
      → Inv finish p
      → i < p.size
      → ((t : T) → p.place i ≢ running t)
      → p.place i ≢ exited
      → ((j : ℕ) → th_status j ≡ (if j == i then status_of to else p.th_status j))
      → (in_section to ≡ true → holder ≡ some (worker i))
      → ((who : Holder T) → who ≢ worker i → p.holder ≡ some who → holder ≡ some who)
      → Inv finish
          (record p { place = set_at i to p.place; holder = holder; th_status = th_status })
  unfolding set_at
  moved-Inv finish p i to holder th_status inv lt busy live st sec keeps = record {
    holds = λ j e. elim (Bool-cases (j == i)) [
      | inl same ↦ ground (arith, e, same, sec)
      | inr other ↦ keeps (worker j) (λ w. ground (arith, w)) (inv.holds j (ground (arith, e)))
    ];
    destroyer_holds = λ e. keeps destroyer (λ w. ground (arith, w)) (inv.destroyer_holds e);
    order = inv.order;
    stopped = inv.stopped;
    drained = inv.drained;
    order_freed = inv.order_freed;
    all_out = λ e j l. absurd (live (inv.all_out e i lt));
    served = λ t h. elim (inv.served t h) [
      | inl d ↦ inl d
      | inr (j, r) ↦ elim (Bool-cases (j == i)) [
        | inl same ↦ absurd (busy t (ground (arith, same, r)))
        | inr other ↦ inr (j, ground (arith, other, r))
      ]
    ];
    status = λ j l. ground (arith, st j, inv.status j l);
    no_more = λ j le. ground (arith, inv.no_more j le);
  }
