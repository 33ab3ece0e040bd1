-- ===== src/Rbtree/Rounds.antt =====
-- zbaselib_rbtree.c: the loop that repairs an insertion, to its end.
use zbaselib.Prelude.{
  ℕ, zero, suc, ◌<◌, Bool, true, false, [], ◌∷◌, ◌≡◌, refl, sym, ◌∙◌, ap, subst, arith, length,
}
use zbaselib.Rbtree.Store.{Ptr, Side, left, right, other, Node, Store}
use zbaselib.Rbtree.Defs.{push_loop}
use zbaselib.Rbtree.Tree.{
  Tree, leaf, branch, Frame, frame, PathUp, grow, ptr, root_of, Holds, plug, nodes,
}
use zbaselib.Rbtree.Balance.{
  is_red, height, balanced, fits, black_root, blacken-balanced, plug-nodes, turn-nodes,
}
use zbaselib.Rbtree.Focus.{down-Holds}
use zbaselib.Rbtree.Repair.{red-Holds, outer-Holds, inner-Holds, flip}
use zbaselib.Rbtree.Loop.{Repaired, carry, loop-round, stop-Repaired, push_loop-root}

-- The path to a red child of a red node
abbrev path :
    (r : Side)
    → (p kp : Ptr) → (sib : Tree) → (s : Side) → (g kg : Ptr) → (cg : Bool) → (unc : Tree) → PathUp
    → PathUp
path r p kp sib s g kg cg unc fs = frame r p kp true sib ∷ (frame s g kg cg unc ∷ fs)

fits_outer :
    (n : ℕ)
    → (r s : Side) → (p kp : Ptr) → (sib : Tree) → (g kg : Ptr) → (cg : Bool) → (unc : Tree)
    → (fs : PathUp) → fits n (path r p kp sib s g kg cg unc fs) ≡ true
    → is_red unc ≡ false
    → fits n (frame s p kp false (grow s sib g kg true unc) ∷ fs) ≡ true
unfolding fits height balanced
fits_outer n r left p kp sib g kg cg unc fs f b = ground arith
fits_outer n r right p kp sib g kg cg unc fs f b = ground arith

fits_inner :
    (r s : Side)
    → (m : Tree) → (nx kx : Ptr) → (t : Tree) → (p kp : Ptr) → (sib : Tree) → (g kg : Ptr)
    → (cg : Bool) → (unc : Tree) → (fs : PathUp) → balanced (grow s m nx kx true t) ≡ true
    → fits (height (grow s m nx kx true t)) (path r p kp sib s g kg cg unc fs) ≡ true
    → is_red unc ≡ false
    → (balanced (grow s sib p kp true m) ≡ true)
      × (fits (height (grow s sib p kp true m)) (frame s nx kx false (grow s t g kg true unc) ∷ fs)
          ≡ true)
unfolding fits height balanced
fits_inner r left m nx kx t p kp sib g kg cg unc fs bx f b = (ground arith, ground arith)
fits_inner r right m nx kx t p kp sib g kg cg unc fs bx f b = (ground arith, ground arith)

fits_red :
    (x : Tree)
    → (r s : Side) → (p kp : Ptr) → (sib : Tree) → (g kg : Ptr) → (cg : Bool) → (ul : Tree)
    → (u ku : Ptr) → (ur : Tree) → (fs : PathUp) → balanced x ≡ true
    → fits (height x) (path r p kp sib s g kg cg (branch ul u ku true ur) fs) ≡ true
    → let x' = grow s (grow r x p kp false sib) g kg true (branch ul u ku false ur) in
      (balanced x' ≡ true) × (fits (height x') fs ≡ true)
unfolding fits height balanced
fits_red x left left p kp sib g kg cg ul u ku ur fs bx f = (ground arith, ground arith)
fits_red x left right p kp sib g kg cg ul u ku ur fs bx f = (ground arith, ground arith)
fits_red x right left p kp sib g kg cg ul u ku ur fs bx f = (ground arith, ground arith)
fits_red x right right p kp sib g kg cg ul u ku ur fs bx f = (ground arith, ground arith)

black_root_rest :
    (f g : Frame) → (fs : PathUp) → black_root (f ∷ (g ∷ fs)) ≡ true → black_root fs ≡ true
unfolding black_root
black_root_rest f g [] b = refl
black_root_rest (frame s p k c sib) (frame s' p' k' c' sib') (h ∷ fs) b = b

nodes_outer :
    (x : Tree)
    → (s : Side) → (p kp : Ptr) → (sib : Tree) → (g kg : Ptr) → (cg : Bool) → (unc : Tree)
    → (fs : PathUp)
    → nodes (plug x (frame s p kp false (grow s sib g kg true unc) ∷ fs))
      ≡ nodes (plug x (path s p kp sib s g kg cg unc fs))
unfolding plug
nodes_outer x s p kp sib g kg cg unc fs =
    plug-nodes _ _ fs (sym (turn-nodes s x p kp true false sib g kg cg true unc))

nodes_inner :
    (s : Side)
    → (m : Tree) → (nx kx : Ptr) → (t : Tree) → (p kp : Ptr) → (sib : Tree) → (g kg : Ptr)
    → (cg : Bool) → (unc : Tree) → (fs : PathUp)
    → nodes (plug (grow s sib p kp true m) (frame s nx kx false (grow s t g kg true unc) ∷ fs))
      ≡ nodes (plug (grow s m nx kx true t) (path (other s) p kp sib s g kg cg unc fs))
unfolding plug
nodes_inner s m nx kx t p kp sib g kg cg unc fs =
    let a : Tree = grow s sib p kp true m in
    plug-nodes _ _ fs (sym (turn-nodes s a nx kx true false t g kg cg true unc))
    ∙ plug-nodes (grow s a nx kx true t) (grow (other s) (grow s m nx kx true t) p kp true sib)
        (frame s g kg cg unc ∷ fs)
        (turn-nodes s sib p kp true true m nx kx true true t
          ∙ ap nodes (sym (flip s (grow s m nx kx true t) p kp true sib)))

recoloured :
    (x : Tree)
    → (r s : Side) → (p kp : Ptr) → (sib : Tree) → (g kg : Ptr) → (cg : Bool) → (ul : Tree)
    → (u ku : Ptr) → (ur : Tree)
    → nodes (grow s (grow r x p kp false sib) g kg true (branch ul u ku false ur))
      ≡ nodes (grow s (grow r x p kp true sib) g kg cg (branch ul u ku true ur))
unfolding nodes
recoloured x left left p kp sib g kg cg ul u ku ur = refl
recoloured x left right p kp sib g kg cg ul u ku ur = refl
recoloured x right left p kp sib g kg cg ul u ku ur = refl
recoloured x right right p kp sib g kg cg ul u ku ur = refl

red_nodes :
    (x : Tree)
    → (r s : Side) → (p kp : Ptr) → (sib : Tree) → (g kg : Ptr) → (cg : Bool) → (ul : Tree)
    → (u ku : Ptr) → (ur : Tree) → (fs : PathUp)
    → nodes (plug (grow s (grow r x p kp false sib) g kg true (branch ul u ku false ur)) fs)
      ≡ nodes (plug x (path r p kp sib s g kg cg (branch ul u ku true ur) fs))
unfolding plug
red_nodes x r s p kp sib g kg cg ul u ku ur fs =
    plug-nodes _ _ fs (recoloured x r s p kp sib g kg cg ul u ku ur)

-- The loop at a red node in a path of black root ends, and leaves a tree that is red-black but for a red root.
module _ (s0 : Node) (top : Ptr) where
  abbrev Ends : ℕ → Tree → PathUp → Store → Type 0
  Ends fuel x fs st = Repaired st s0 top (nodes (plug x fs)) (push_loop fuel (ptr st.sentinel x) st)

  at_root :
      (fuel : ℕ)
      → (x : Tree) → (st : Store) → Holds st s0 top x []
      → balanced x ≡ true
      → Ends (suc fuel) x [] st
  unfolding root_of plug
  at_root fuel x st h b = record {
    out = st;
    tree = x;
    out_eq = push_loop-root fuel (ptr st.sentinel x) st (sym h.root_eq);
    holds = h;
    nodes_eq = refl;
    red_black = blacken-balanced x b;
    sentinel_eq = refl;
    size_eq = refl;
  }

  -- A black uncle: the loop ends after this round.
  module _ (fuel : ℕ) (xl : Tree) (nx kx : Ptr) (xr : Tree) (s : Side) (p kp : Ptr) (sib : Tree)
      (g kg : Ptr) (cg : Bool) (unc : Tree) (fs : PathUp) (st : Store) (b : is_red unc ≡ false)
      (bx : balanced (branch xl nx kx true xr) ≡ true) where
    abbrev x : Tree
    x = branch xl nx kx true xr

    outer-Ends :
        Holds st s0 top x (path s p kp sib s g kg cg unc fs)
        → fits (height x) (path s p kp sib s g kg cg unc fs) ≡ true
        → Ends (suc (suc fuel)) x (path s p kp sib s g kg cg unc fs) st
    outer-Ends h f =
        let (st', e, h', en, ez) =
          outer-Holds s0 top fs s xl nx kx true xr p kp true sib g kg cg unc b st h in
        let low : Tree = grow s sib g kg true unc in
        let h2 = down-Holds s x p kp false low st' s0 top fs h' in
        carry
          (stop-Repaired fuel x s p kp low fs st' s0 top h2 refl bx
            (fits_outer (height x) s s p kp sib g kg cg unc fs f b))
          (loop-round x s s p kp sib g kg cg unc fs st s0 top h refl (suc fuel) nx st' e)
          (nodes_outer x s p kp sib g kg cg unc fs) en ez

    inner-Ends :
        (m t : Tree)
        → x ≡ grow s m nx kx true t
        → Holds st s0 top x (path (other s) p kp sib s g kg cg unc fs)
        → fits (height x) (path (other s) p kp sib s g kg cg unc fs) ≡ true
        → Ends (suc (suc fuel)) x (path (other s) p kp sib s g kg cg unc fs) st
    inner-Ends m t ex h f =
        let (st', e, h', en, ez) =
          inner-Holds s0 top fs s xl nx kx true xr p kp true sib g kg cg unc b m t ex st h in
        let low : Tree = grow s t g kg true unc in
        let a : Tree = grow s sib p kp true m in
        let h2 = down-Holds s a nx kx false low st' s0 top fs h' in
        let (ba, fa) =
          fits_inner (other s) s m nx kx t p kp sib g kg cg unc fs
            (subst (λ y. balanced y ≡ true) ex bx)
            (subst (λ y. fits (height y) (path (other s) p kp sib s g kg cg unc fs) ≡ true) ex f)
            b in
        let ra : is_red a ≡ true = elim s [ left ↦ ground arith | right ↦ ground arith ] in
        let pa : ptr st'.sentinel a ≡ p = elim s [ left ↦ ground arith | right ↦ ground arith ] in
        carry (stop-Repaired fuel a s nx kx low fs st' s0 top h2 ra ba fa)
          (loop-round x (other s) s p kp sib g kg cg unc fs st s0 top h refl (suc fuel) p st' e
            ∙ ap (λ q. push_loop (suc fuel) q st') (sym pa))
          (nodes_inner s m nx kx t p kp sib g kg cg unc fs
            ∙ ap (λ y. nodes (plug y (path (other s) p kp sib s g kg cg unc fs))) (sym ex))
          en ez

  black-Ends :
      (fuel : ℕ)
      → (xl : Tree) → (nx kx : Ptr) → (xr : Tree) → (r s : Side) → (p kp : Ptr) → (sib : Tree)
      → (g kg : Ptr) → (cg : Bool) → (unc : Tree) → (fs : PathUp) → (st : Store)
      → Holds st s0 top (branch xl nx kx true xr) (path r p kp sib s g kg cg unc fs)
      → is_red unc ≡ false
      → balanced (branch xl nx kx true xr) ≡ true
      → fits (height (branch xl nx kx true xr)) (path r p kp sib s g kg cg unc fs) ≡ true
      → Ends (suc (suc fuel)) (branch xl nx kx true xr) (path r p kp sib s g kg cg unc fs) st
  black-Ends fuel xl nx kx xr left left p kp sib g kg cg unc fs st h b bx f =
      outer-Ends fuel xl nx kx xr left p kp sib g kg cg unc fs st b bx h f
  black-Ends fuel xl nx kx xr right right p kp sib g kg cg unc fs st h b bx f =
      outer-Ends fuel xl nx kx xr right p kp sib g kg cg unc fs st b bx h f
  black-Ends fuel xl nx kx xr left right p kp sib g kg cg unc fs st h b bx f =
      inner-Ends fuel xl nx kx xr right p kp sib g kg cg unc fs st b bx xr xl refl h f
  black-Ends fuel xl nx kx xr right left p kp sib g kg cg unc fs st h b bx f =
      inner-Ends fuel xl nx kx xr left p kp sib g kg cg unc fs st b bx xl xr refl h f

  pub push_loop-Repaired :
      (fuel : ℕ)
      → (x : Tree) → (fs : PathUp) → (st : Store) → Holds st s0 top x fs
      → is_red x ≡ true
      → balanced x ≡ true
      → fits (height x) fs ≡ true
      → black_root fs ≡ true
      → length fs < fuel
      → Ends fuel x fs st
  unfolding black_root
  push_loop-Repaired fuel leaf fs st h r b f br lt = ground arith
  push_loop-Repaired zero x fs st h r b f br lt = ground arith
  push_loop-Repaired (suc fuel) x [] st h r b f br lt = at_root fuel x st h b
  push_loop-Repaired (suc fuel) x (frame s p k false sib ∷ fs) st h r b f br lt =
      stop-Repaired fuel x s p k sib fs st s0 top h r b f
  push_loop-Repaired (suc fuel) x (frame s p k true sib ∷ []) st h r b f br lt = ground arith
  push_loop-Repaired (suc zero) x (frame r p k true sib ∷ (frame s g kg cg unc ∷ fs)) st h red b f
        br lt =
      ground arith
  push_loop-Repaired (suc (suc fuel)) (branch xl nx kx false xr)
        (frame r p k true sib ∷ (frame s g kg cg unc ∷ fs)) st h red b f br lt =
      ground arith
  push_loop-Repaired (suc (suc fuel)) (branch xl nx kx true xr)
        (frame r p k true sib ∷ (frame s g kg cg leaf ∷ fs)) st h red b f br lt =
      black-Ends fuel xl nx kx xr r s p k sib g kg cg leaf fs st h refl b f
  push_loop-Repaired (suc (suc fuel)) (branch xl nx kx true xr)
        (frame r p k true sib ∷ (frame s g kg cg (branch ul u ku false ur) ∷ fs)) st h red b f br
        lt =
      black-Ends fuel xl nx kx xr r s p k sib g kg cg (branch ul u ku false ur) fs st h refl b f
  push_loop-Repaired (suc (suc fuel)) (branch xl nx kx true xr)
        (frame r p k true sib ∷ (frame s g kg cg (branch ul u ku true ur) ∷ fs)) st h red b f br
        lt =
      let x : Tree = branch xl nx kx true xr in
      let (st', e, h', en, ez) = red-Holds s0 top fs s r x p k true sib g kg cg ul u ku ur st h in
      let x' : Tree = grow s (grow r x p k false sib) g kg true (branch ul u ku false ur) in
      let (b', f') = fits_red x r s p k sib g kg cg ul u ku ur fs b f in
      let r' : is_red x' ≡ true = elim s [ left ↦ ground arith | right ↦ ground arith ] in
      let pg : ptr st'.sentinel x' ≡ g = elim s [ left ↦ ground arith | right ↦ ground arith ] in
      carry
        (push_loop-Repaired (suc fuel) x' fs st' h' r' b' f'
          (black_root_rest (frame r p k true sib) (frame s g kg cg (branch ul u ku true ur)) fs br)
          (omega arith))
        (loop-round x r s p k sib g kg cg (branch ul u ku true ur) fs st s0 top h refl (suc fuel) g
            st' e
          ∙ ap (λ q. push_loop (suc fuel) q st') (sym pg))
        (red_nodes x r s p k sib g kg cg ul u ku ur fs) en ez
