-- ===== src/Pool/Keep.antt =====
-- zbaselib_thread.c, the thread pool: every step of a worker keeps the invariant.
use zbaselib.Prelude.{
  ℕ, ◌<◌, Bool, true, false, ◌==◌, ◌≡◌, ◌≢◌, refl, sym, ap, ◌∙◌, subst, none, some, List, [], ◌∷◌,
  ◌++◌, append_assoc, arith, ◌⊎◌, inl, inr, Bool-cases,
}
use zbaselib.Pool.Defs.{
  Place, taking, running, finishing, exited, worker, Pool, set_at, move, leave, enter, take_task,
}
use zbaselib.Pool.Inv.{Has, here, there, in_section, status_of, is_freed, Inv, moved-Inv}

pub Has-append_left : {T : Type 0} {t : T} {xs : List T} (ys : List T) → Has t xs → Has t (xs ++ ys)
Has-append_left ys here = here
Has-append_left ys (there h) = there (Has-append_left ys h)

pub Has-append_right :
    {T : Type 0} {t : T} (xs : List T) {ys : List T} → Has t ys → Has t (xs ++ ys)
Has-append_right [] h = h
Has-append_right (x ∷ xs) h = there (Has-append_right xs h)

-- A task of a longer list is the last one or one before.
pub Has-snoc :
    {T : Type 0} {t : T} (xs : List T) (u : T) → Has t (xs ++ u ∷ []) → Has t xs ⊎ (t ≡ u)
Has-snoc [] u here = inr refl
Has-snoc [] u (there h) = elim h [ ]
Has-snoc (x ∷ xs) u here = inl here
Has-snoc (x ∷ xs) u (there h) = elim (Has-snoc xs u h) [
  | inl before ↦ inl (there before)
  | inr last ↦ inr last
]

module _ {T : Type 0} (finish : Bool) (p : Pool T) (i : ℕ) (inv : Inv finish p)
    (lt : i < p.size) where
  -- A step inside of the section, or outside of it.
  pub move-Inv :
      (to : Place T)
      → ((t : T) → p.place i ≢ running t)
      → p.place i ≢ exited
      → in_section to ≡ in_section (p.place i)
      → status_of to ≡ status_of (p.place i)
      → Inv finish (move i to p)
  unfolding move
  move-Inv to busy live same st =
      moved-Inv finish p i to p.holder p.th_status inv lt busy live
        (λ j. ground (arith, inv.status i lt)) (λ e. inv.holds i (ground arith)) (λ who ne e. e)

  pub leave-Inv :
      (to : Place T)
      → in_section (p.place i) ≡ true
      → in_section to ≡ false
      → status_of to ≡ status_of (p.place i)
      → Inv finish (leave i to p)
  unfolding leave move
  leave-Inv to sec out st =
      moved-Inv finish p i to none p.th_status inv lt (λ t e. ground (arith, e))
        (λ e. ground (arith, e)) (λ j. ground (arith, inv.status i lt)) (λ e. ground (arith, e))
        (λ who ne e. absurd (ne (ground (arith, e, inv.holds i sec))))

  pub enter-Inv :
      (to : Place T) (p' : Pool T)
      → ((t : T) → p.place i ≢ running t)
      → p.place i ≢ exited
      → status_of to ≡ status_of (p.place i)
      → enter i to p ≡ some p'
      → Inv finish p'
  unfolding enter move
  enter-Inv to p' busy live st e =
      let free : p.holder ≡ none = ground (arith, e) in
      let is : record p { place = set_at i to p.place; holder = some (worker i) } ≡ p' =
        ground (arith, e, free) in
      subst (Inv finish) is (
        moved-Inv finish p i to (some (worker i)) p.th_status inv lt busy live
          (λ j. ground (arith, inv.status i lt)) (λ e. refl) (λ who ne e. ground (arith, free, e)))

  -- As long as the worker has not returned, the pool is there.
  pub still_there : p.place i ≢ exited → is_freed p.ending ≡ false
  still_there live = elim (Bool-cases (is_freed p.ending)) [
    | inl gone ↦ absurd (live (inv.all_out gone i lt))
    | inr kept ↦ kept
  ]

  -- The head of the queue is taken.
  pub take-Inv :
      (t : T) (rest : List T)
      → p.place i ≡ taking
      → p.task_queue ≡ t ∷ rest
      → Inv finish (take_task i (t ∷ rest) p)
  unfolding take_task leave move set_at
  take-Inv t rest at_taking queue =
      let mine : p.holder ≡ some (worker i) = inv.holds i (ground (arith, at_taking)) in
      let unfreed : is_freed p.ending ≡ false = still_there (λ e. ground (arith, e, at_taking)) in
      record {
        holds = λ j e. elim (Bool-cases (j == i)) [
          | inl same ↦ ground (arith, e, same)
          | inr other ↦ ground (arith, e, other, mine, inv.holds j)
        ];
        destroyer_holds = λ e. ground (arith, mine, inv.destroyer_holds e);
        order = λ e.
            append_assoc p.taken (t ∷ []) rest ∙ ap (λ q. p.taken ++ q) (sym queue) ∙ inv.order e;
        stopped = inv.stopped;
        drained = λ f e. absurd (not_nil (sym queue ∙ inv.drained f e));
        order_freed = λ f e. ground (arith, e, unfreed);
        all_out = λ e j l. ground (arith, e, unfreed);
        served = λ u h. elim (Has-snoc p.taken t h) [
          | inr last ↦ inr (i, ground (arith, last))
          | inl before ↦ elim (inv.served u before) [
            | inl d ↦ inl d
            | inr (j, r) ↦ inr (j, ground (arith, r, at_taking))
          ]
        ];
        status = λ j l. ground (arith, inv.status j l);
        no_more = λ j le. ground (arith, inv.no_more j le);
      }
    where
      not_nil : t ∷ rest ≡ [] → ⊥
      not_nil e = cc

  -- A job is done.
  pub run-Inv :
      (t : T)
      → p.place i ≡ running t
      → Inv finish (record (move i finishing p) { done = p.done ++ t ∷ [] })
  unfolding move set_at
  run-Inv t at_running =
      let unfreed : is_freed p.ending ≡ false = still_there (λ e. ground (arith, e, at_running)) in
      record {
        holds = λ j e. ground (arith, e, inv.holds j);
        destroyer_holds = inv.destroyer_holds;
        order = inv.order;
        stopped = inv.stopped;
        drained = inv.drained;
        order_freed = inv.order_freed;
        all_out = λ e j l. ground (arith, e, unfreed);
        served = λ u h. elim (inv.served u h) [
          | inl d ↦ inl (Has-append_left (t ∷ []) d)
          | inr (j, r) ↦ elim (Bool-cases (j == i)) [
            | inl same ↦
                let last : t ≡ u = ground (arith, r, at_running, same) in
                inl (Has-append_right p.done (subst (λ u. Has u (t ∷ [])) last here))
            | inr other ↦ inr (j, ground (arith, r, other))
          ]
        ];
        status = λ j l. ground (arith, inv.status j l);
        no_more = λ j le. ground (arith, inv.no_more j le);
      }
