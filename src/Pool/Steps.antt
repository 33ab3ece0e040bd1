-- ===== src/Pool/Steps.antt =====
-- zbaselib_thread.c, the thread pool: every step keeps the invariant.
use zbaselib.Prelude.{
  ℕ, ◌<◌, Bool, true, false, not, ◌&&◌, ◌==◌, if◌then◌else◌, ◌≡◌, refl, subst, Option, none, some,
  List, [], ◌∷◌, arith,
}
use zbaselib.Prelude.Int.{ℤ, pos}
use zbaselib.Pool.Defs.{
  Place, starting, at_lock, entered, testing, waiting, woken, taking, running, finishing, resetting,
  exited, Pool, set_at, move, leave, take_task, work, is_empty,
}
use zbaselib.Pool.Inv.{Inv, moved-Inv}
use zbaselib.Pool.Keep.{move-Inv, leave-Inv, enter-Inv, take-Inv, run-Inv}

set_at_lem : (f : ℕ → ℤ) (i j : ℕ) (s : ℤ) → set_at i s f j ≡ (if j == i then s else f j)
unfolding set_at
set_at_lem f i j s = refl

module _ {T : Type 0} (finish : Bool) (p : Pool T) (inv : Inv finish p) where
  abbrev pub Keeps : Option (Pool T) → Type 0
  Keeps o = (p' : Pool T) → o ≡ some p' → Inv finish p'

  pub Keeps-some : (q : Pool T) → Inv finish q → Keeps (some q)
  Keeps-some q inv' p' e = let same : q ≡ p' = ground (arith, e) in subst (Inv finish) same inv'

  pub Keeps-if :
      (t : Bool) (a b : Option (Pool T))
      → (t ≡ true → Keeps a)
      → (t ≡ false → Keeps b)
      → Keeps (if t then a else b)
  Keeps-if true a b ka kb = ka refl
  Keeps-if false a b ka kb = kb refl

  pub work-Inv : (i : ℕ) (w : Place T) → i < p.size → p.place i ≡ w → Keeps (work i w p)
  unfolding work take_task leave move
  work-Inv i starting lt at = Keeps-some _ (
      moved-Inv finish p i at_lock p.holder (set_at i (pos 0) p.th_status) inv lt
        (λ t e. ground (arith, e, at)) (λ e. ground (arith, e, at))
        (λ j. set_at_lem p.th_status i j (pos 0)) (λ e. ground (arith, e)) (λ who ne e. e))
  work-Inv i at_lock lt at = λ p' e.
      enter-Inv finish p i inv lt entered p' (λ t e. ground (arith, e, at))
        (λ e. ground (arith, e, at)) (ground (arith, at)) e
  work-Inv i entered lt at =
      Keeps-if p.stop _ _
        (λ h.
          Keeps-some _
            (leave-Inv finish p i inv lt exited (ground (arith, at)) refl (ground (arith, at))))
        (λ h. Keeps-some _ (
          move-Inv finish p i inv lt testing (λ t e. ground (arith, e, at))
            (λ e. ground (arith, e, at)) (ground (arith, at)) (ground (arith, at))))
  work-Inv i testing lt at =
      Keeps-if (not p.stop && is_empty p.task_queue) _ _
        (λ h.
          Keeps-some _
            (leave-Inv finish p i inv lt waiting (ground (arith, at)) refl (ground (arith, at))))
        (λ h. Keeps-some _ (
          move-Inv finish p i inv lt taking (λ t e. ground (arith, e, at))
            (λ e. ground (arith, e, at)) (ground (arith, at)) (ground (arith, at))))
  work-Inv i waiting lt at = λ p' e. ground (arith, e)
  work-Inv i woken lt at = λ p' e.
      enter-Inv finish p i inv lt testing p' (λ t e. ground (arith, e, at))
        (λ e. ground (arith, e, at)) (ground (arith, at)) e
  work-Inv i taking lt at = Keeps-some _ (by_queue p.task_queue refl)
    where
      by_queue : (q : List T) → p.task_queue ≡ q → Inv finish (take_task i q p)
      by_queue [] e =
          leave-Inv finish p i inv lt at_lock (ground (arith, at)) refl (ground (arith, at))
      by_queue (t ∷ rest) e = take-Inv finish p i inv lt t rest at e
  work-Inv i (running t) lt at = Keeps-some _ (run-Inv finish p i inv lt t at)
  work-Inv i finishing lt at = λ p' e.
      enter-Inv finish p i inv lt resetting p' (λ t e. ground (arith, e, at))
        (λ e. ground (arith, e, at)) (ground (arith, at)) e
  work-Inv i resetting lt at = Keeps-some _ (
      moved-Inv finish p i at_lock none (set_at i (pos 0) p.th_status) inv lt
        (λ t e. ground (arith, e, at)) (λ e. ground (arith, e, at))
        (λ j. set_at_lem p.th_status i j (pos 0)) (λ e. ground (arith, e))
        (λ who ne e. absurd (ne (ground (arith, e, at, inv.holds i)))))
  work-Inv i exited lt at = λ p' e. ground (arith, e)
