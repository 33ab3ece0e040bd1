-- ===== src/Pool/Calls.antt =====
-- zbaselib_thread.c, the thread pool: the callers' steps keep the invariant, and so do all steps.
use zbaselib.Prelude.{
  ℕ, zero, suc, ◌<◌, Bool, true, false, ◌==◌, if◌then◌else◌, ◌≡◌, refl, sym, ap, ◌∙◌, subst, Option,
  none, some, List, [], ◌∷◌, ◌++◌, append-nil, append_assoc, arith, inl, inr, Bool-cases,
}
use zbaselib.Prelude.Int.{ℤ, pos, negsuc}
use zbaselib.Pool.Defs.{
  Place, woken, exited, Ending, uncalled, inside, checking, sleeping, roused, stopping, joining,
  freed, returned, Holder, worker, adder, destroyer, Pool, is_empty, acquire, addtask, destroy,
  all_exited, has_exited, Step, works, wakes, calls, adds, destroys, rouses, Reached, created,
  after,
}
use zbaselib.Pool.Inv.{destroyer_in_section, is_drained, is_stopped, is_freed, Inv, create-Inv}
use zbaselib.Pool.Steps.{Keeps, Keeps-some, Keeps-if, work-Inv}
use zbaselib.Pool.Keep.{move-Inv}

module _ {T : Type 0} (finish : Bool) (p : Pool T) (inv : Inv finish p) where
  -- A caller takes or gives back the mutex, and destroy goes on, with the queue as it is.
  passed-Inv :
      (holder : Option (Holder T)) (ending : Ending) (stop : Bool)
      → ((i : ℕ) → p.holder ≡ some (worker i) → holder ≡ some (worker i))
      → (destroyer_in_section ending ≡ true → holder ≡ some destroyer)
      → is_freed ending ≡ is_freed p.ending
      → stop ≡ is_stopped ending
      → (finish ≡ true → is_drained ending ≡ true → p.task_queue ≡ [])
      → Inv finish (record p { holder = holder; ending = ending; stop = stop })
  passed-Inv holder ending stop workers mine same stops drained = record {
    holds = λ j e. workers j (inv.holds j e);
    destroyer_holds = mine;
    order = λ e. inv.order (sym same ∙ e);
    stopped = stops;
    drained = drained;
    order_freed = λ f e. inv.order_freed f (sym same ∙ e);
    all_out = λ e. inv.all_out (sym same ∙ e);
    served = inv.served;
    status = inv.status;
    no_more = inv.no_more;
  }

  adds-Inv : (t : T) → p.holder ≡ some (adder t) → Inv finish (addtask t p).1
  unfolding addtask
  adds-Inv t mine =
      let refused : ℤ × Pool T = (negsuc 0, record p { holder = none }) in
      let longer : ℤ × Pool T = (
        pos 0,
        record p { holder = none; task_queue = p.task_queue ++ t ∷ []; added = p.added ++ t ∷ [] },
      ) in
      elim (Bool-cases p.stop) [
        | inl stop ↦
            subst (λ (r : ℤ × Pool T). Inv finish r.1)
              (sym (ap (λ s. if s then refused else longer) stop))
              (passed-Inv none p.ending p.stop (λ i e. ground (arith, mine, e))
                (λ e. ground (arith, mine, inv.destroyer_holds e)) refl inv.stopped inv.drained)
        | inr stop ↦
            subst (λ (r : ℤ × Pool T). Inv finish r.1)
              (sym (ap (λ s. if s then refused else longer) stop))
              (record {
                holds = λ j e. ground (arith, mine, inv.holds j e);
                destroyer_holds = λ e. ground (arith, mine, inv.destroyer_holds e);
                order = λ e.
                    sym (append_assoc p.taken p.task_queue (t ∷ []))
                    ∙ ap (λ q. q ++ t ∷ []) (inv.order e);
                stopped = inv.stopped;
                drained = λ f e. ground (arith, mine, stop, inv.stopped, inv.destroyer_holds, e);
                order_freed = λ f e. ground (arith, stop, inv.stopped, e);
                all_out = inv.all_out;
                served = inv.served;
                status = inv.status;
                no_more = inv.no_more;
              })
      ]

  calls-Inv : (t : T) → Keeps finish p inv (acquire (adder t) p)
  unfolding acquire
  calls-Inv t p' e =
      let free : p.holder ≡ none = ground (arith, e) in
      let is : record p { holder = some (adder t) } ≡ p' = ground (arith, e, free) in
      subst (Inv finish) is (
        passed-Inv (some (adder t)) p.ending p.stop (λ i e. ground (arith, free, e))
          (λ e. ground (arith, free, inv.destroyer_holds e)) refl inv.stopped inv.drained)

  -- All workers below `n` have returned.
  all_exited-out :
      (n : ℕ) (place : ℕ → Place T) → all_exited n place ≡ true → (i : ℕ) → i < n → place i ≡ exited
  unfolding all_exited has_exited
  all_exited-out zero place e i lt = absurd (omega arith)
  all_exited-out (suc n) place e i lt = elim (Bool-cases (i == n)) [
    | inl same ↦ exited_of (place i) (ground (arith, e, same))
    | inr other ↦ all_exited-out n place (ground (arith, e)) i (ground (arith, other))
  ]
    where
      exited_of : (w : Place T) → has_exited w ≡ true → w ≡ exited
      exited_of exited h = refl
      exited_of _ h = ground (arith, h)

  acquired-Inv :
      (ending : Ending)
      → is_freed ending ≡ is_freed p.ending
      → p.stop ≡ is_stopped ending
      → is_drained ending ≡ false
      → Keeps finish p inv (elim (acquire destroyer p) [
        | none ↦ none
        | some p' ↦ some (record p' { ending = ending })
      ])
  unfolding acquire
  acquired-Inv ending same stops wet p' e =
      let free : p.holder ≡ none = ground (arith, e) in
      let is : record p { holder = some destroyer; ending = ending } ≡ p' =
        ground (arith, e, free) in
      subst (Inv finish) is (
        passed-Inv (some destroyer) ending p.stop (λ i e. ground (arith, free, e)) (λ e. refl) same
          stops (λ f e. ground (arith, e, wet)))

  nil_of_empty : (q : List T) → is_empty q ≡ true → q ≡ []
  unfolding is_empty
  nil_of_empty [] e = refl
  nil_of_empty (t ∷ q) e = ground (arith, e)

  freed-Inv :
      p.ending ≡ joining
      → all_exited p.size p.place ≡ true
      → Inv finish (record p { ending = freed; task_queue = [] })
  freed-Inv at out = record {
    holds = inv.holds;
    destroyer_holds = λ e. ground (arith, e);
    order = λ e. ground (arith, e);
    stopped = ground (arith, at, inv.stopped);
    drained = λ f e. refl;
    order_freed = λ f e.
        sym (append-nil p.taken)
        ∙ ap (λ q. p.taken ++ q) (sym (inv.drained f (ground (arith, at))))
        ∙ inv.order (ground (arith, at));
    all_out = λ e. all_exited-out p.size p.place out;
    served = inv.served;
    status = inv.status;
    no_more = inv.no_more;
  }

  destroy-Inv : (ending : Ending) → p.ending ≡ ending → Keeps finish p inv (destroy finish ending p)
  unfolding destroy
  destroy-Inv uncalled at =
      acquired-Inv inside (ground (arith, at)) (ground (arith, at, inv.stopped)) refl
  destroy-Inv inside at =
      let mine : p.holder ≡ some destroyer = inv.destroyer_holds (ground (arith, at)) in
      Keeps-if finish p inv p.stop _ _ (λ h. absurd (ground (arith, h, at, inv.stopped)))
        (λ h. Keeps-some finish p inv _ (
          passed-Inv p.holder (if finish then checking else stopping) p.stop (λ i e. e) (λ e. mine)
            (ground (arith, at)) (ground (arith, at, inv.stopped)) (λ f e. ground (arith, f, e))))
  destroy-Inv checking at =
      let mine : p.holder ≡ some destroyer = inv.destroyer_holds (ground (arith, at)) in
      Keeps-if finish p inv (is_empty p.task_queue) _ _
        (λ h. Keeps-some finish p inv _ (
          passed-Inv p.holder stopping p.stop (λ i e. e) (λ e. mine) (ground (arith, at))
            (ground (arith, at, inv.stopped)) (λ f e. nil_of_empty p.task_queue h)))
        (λ h. Keeps-some finish p inv _ (
          passed-Inv none sleeping p.stop (λ i e. ground (arith, mine, e)) (λ e. ground (arith, e))
            (ground (arith, at)) (ground (arith, at, inv.stopped)) (λ f e. ground (arith, e))))
  destroy-Inv sleeping at = λ p' e. ground (arith, e)
  destroy-Inv roused at =
      acquired-Inv checking (ground (arith, at)) (ground (arith, at, inv.stopped)) refl
  destroy-Inv stopping at =
      let mine : p.holder ≡ some destroyer = inv.destroyer_holds (ground (arith, at)) in
      Keeps-some finish p inv _ (
        passed-Inv none joining true (λ i e. ground (arith, mine, e)) (λ e. ground (arith, e))
          (ground (arith, at)) refl (λ f e. inv.drained f (ground (arith, at))))
  destroy-Inv joining at =
      Keeps-if finish p inv (all_exited p.size p.place) _ _
        (λ h. Keeps-some finish p inv _ (freed-Inv at h)) (λ h p' e. ground (arith, e))
  destroy-Inv freed at = λ p' e. ground (arith, e)
  destroy-Inv returned at = λ p' e. ground (arith, e)

  step-Inv : (p' : Pool T) → Step finish p p' → Inv finish p'
  step-Inv _ (works i p' lt e) = work-Inv finish p inv i (p.place i) lt refl p' e
  step-Inv _ (wakes i lt at) =
      move-Inv finish p i inv lt woken (λ t e. ground (arith, e, at)) (λ e. ground (arith, e, at))
        (ground (arith, at)) (ground (arith, at))
  step-Inv _ (calls t p' ne e) = calls-Inv t p' e
  step-Inv _ (adds t mine) = adds-Inv t mine
  step-Inv _ (destroys p' e) = destroy-Inv p.ending refl p' e
  step-Inv _ (rouses at) =
      passed-Inv p.holder roused p.stop (λ i e. e) (λ e. ground (arith, e)) (ground (arith, at))
        (ground (arith, at, inv.stopped)) (λ f e. ground (arith, e))

pub Reached-Inv :
    {T : Type 0} (finish : Bool) (size : ℕ) (p : Pool T) → Reached finish size p → Inv finish p
Reached-Inv finish size p created = create-Inv finish size
Reached-Inv finish size p (after {p = q} r step) =
    step-Inv finish q (Reached-Inv finish size q r) p step
