-- ===== src/Rbtree/Repair.antt =====
-- zbaselib_rbtree.c: the rounds that repair an insertion.
use zbaselib.Prelude.{Bool, true, false, some, ◌∷◌, ◌≡◌, ◌≢◌, refl, ◌∙◌, subst, arith}
use zbaselib.Rbtree.Store.{Ptr, Side, left, right, other, Node, Store, kid}
use zbaselib.Rbtree.Defs.{rotate, turn_over, turn, push_round}
use zbaselib.Rbtree.Tree.{
  Tree, branch, frame, PathUp, grow, node_of, ptr, parent_of, count, count_up, Holds, look-ptr,
}
use zbaselib.Rbtree.Focus.{up-Holds, down-Holds, flip-Holds, at_focus, at_black, colour-Holds}
use zbaselib.Rbtree.Balance.{is_red}
use zbaselib.Rbtree.Rotate.{rotate-Holds}

mirror :
    (s : Side)
    → (x : Tree) → (p kp : Ptr) → (cp : Bool) → (sib : Tree) → (g kg : Ptr) → (cg : Bool)
    → (unc : Tree)
    → grow s (grow s x p kp cp sib) g kg cg unc
      ≡ grow (other s) unc g kg cg (grow (other s) sib p kp cp x)
mirror left x p kp cp sib g kg cg unc = refl
mirror right x p kp cp sib g kg cg unc = refl

mirror_back :
    (s : Side)
    → (x : Tree) → (p kp : Ptr) → (cp : Bool) → (sib : Tree) → (g kg : Ptr) → (cg : Bool)
    → (unc : Tree)
    → grow (other s) (grow (other s) unc g kg cg sib) p kp cp x
      ≡ grow s x p kp cp (grow s sib g kg cg unc)
mirror_back left x p kp cp sib g kg cg unc = refl
mirror_back right x p kp cp sib g kg cg unc = refl

pub flip :
    (s : Side)
    → (t : Tree) → (p k : Ptr) → (c : Bool) → (u : Tree)
    → grow (other s) t p k c u ≡ grow s u p k c t
flip left t p k c u = refl
flip right t p k c u = refl

push_round-turn :
    (s : Side)
    → {n u : Node} → (node parent grand : Ptr) → (st : Store) → st.cell grand ≡ some n
    → st.cell (kid (other s) n) ≡ some u
    → u.red ≡ false
    → push_round s node parent grand st ≡ turn s node parent st
unfolding push_round
push_round-turn left node parent grand st eg eu bu = rw eg (rw eu (rw bu refl))
push_round-turn right node parent grand st eg eu bu = rw eg (rw eu (rw bu refl))

turn-outer :
    (s : Side)
    → {pn : Node} → (node parent : Ptr) → (st : Store) → {st' : Store} → st.cell parent ≡ some pn
    → node ≢ kid (other s) pn
    → turn_over s node st ≡ some st'
    → turn s node parent st ≡ some (node, st')
unfolding turn
turn-outer s node parent st ep ne e = ground arith

turn-inner :
    (s : Side)
    → {pn : Node} → (node parent : Ptr) → (st : Store) → {st1 st' : Store}
    → st.cell parent ≡ some pn
    → node ≡ kid (other s) pn
    → rotate s parent st ≡ some st1
    → turn_over s parent st1 ≡ some st'
    → turn s node parent st ≡ some (parent, st')
unfolding turn
turn-inner s node parent st ep eq er e = ground arith

pub flat :
    (s : Side)
    → (near : Tree) → (p k : Ptr) → (c : Bool) → (far : Tree)
    → (l : Tree) × (r : Tree) × (branch l p k c r ≡ grow s near p k c far)
flat left near p k c far = (near, far, refl)
flat right near p k c far = (far, near, refl)

module _ (s0 : Node) (top : Ptr) (fs : PathUp) (s : Side) where
  turn_over-Holds :
      (xl : Tree)
      → (nx kx : Ptr) → (cx : Bool) → (xr : Tree) → (p kp : Ptr) → (cp : Bool) → (sib : Tree)
      → (g kg : Ptr) → (cg : Bool) → (unc : Tree) → (st : Store)
      → Holds st s0 top (branch xl nx kx cx xr) (frame s p kp cp sib ∷ (frame s g kg cg unc ∷ fs))
      → (st' : Store) × (turn_over s nx st ≡ some st')
        × Holds st' s0 top (grow s (branch xl nx kx cx xr) p kp false (grow s sib g kg true unc)) fs
        × (st'.sentinel ≡ st.sentinel)
        × (st'.size ≡ st.size)
  unfolding turn_over
  turn_over-Holds xl nx kx cx xr p kp cp sib g kg cg unc st h =
      let x : Tree = branch xl nx kx cx xr in
      let at =
        at_focus left xl nx kx cx xr st s0 top (frame s p kp cp sib ∷ (frame s g kg cg unc ∷ fs))
          h in
      let h1 = up-Holds s x p kp cp sib st s0 top (frame s g kg cg unc ∷ fs) h in
      let (st1, e1, g1, n1, z1, r1) =
        colour-Holds s x p kp cp false sib st s0 top (frame s g kg cg unc ∷ fs) h1 in
      let at1 = at_focus s x p kp false sib st1 s0 top (frame s g kg cg unc ∷ fs) g1 in
      let h2 = up-Holds s (grow s x p kp false sib) g kg cg unc st1 s0 top fs g1 in
      let (st2, e2, g2, n2, z2, r2) =
        colour-Holds s (grow s x p kp false sib) g kg cg true unc st1 s0 top fs h2 in
      let h3 = subst (λ t. Holds st2 s0 top t fs) (mirror s x p kp false sib g kg true unc) g2 in
      let (st3, e3, g3, n3, z3) =
        rotate-Holds (other s) unc g kg true sib p kp false x st2 s0 top fs h3 in
      (
        st3,
        elim s [
          | left ↦ ground (arith, at, e1, at1, e2, e3)
          | right ↦ ground (arith, at, e1, at1, e2, e3)
        ],
        subst (λ t. Holds st3 s0 top t fs) (mirror_back s x p kp false sib g kg true unc) g3,
        ground arith,
        ground arith,
      )

  -- The same for a node that has its near subtree on the side `s`
  turn_low :
      (near : Tree)
      → (nx kx : Ptr) → (cx : Bool) → (far : Tree) → (p kp : Ptr) → (cp : Bool) → (sib : Tree)
      → (g kg : Ptr) → (cg : Bool) → (unc : Tree) → (st : Store)
      → Holds st s0 top
          (grow s near nx kx cx far)
          (frame s p kp cp sib ∷ (frame s g kg cg unc ∷ fs))
      → (st' : Store) × (turn_over s nx st ≡ some st')
        × Holds st' s0 top
            (grow s (grow s near nx kx cx far) p kp false (grow s sib g kg true unc))
            fs
        × (st'.sentinel ≡ st.sentinel)
        × (st'.size ≡ st.size)
  turn_low near nx kx cx far p kp cp sib g kg cg unc st h =
      let (l, r, e) = flat s near nx kx cx far in
      subst
        (λ t.
          Holds st s0 top t (frame s p kp cp sib ∷ (frame s g kg cg unc ∷ fs))
          → (st' : Store) × (turn_over s nx st ≡ some st')
            × Holds st' s0 top (grow s t p kp false (grow s sib g kg true unc)) fs
            × (st'.sentinel ≡ st.sentinel)
            × (st'.size ≡ st.size))
        e (turn_over-Holds l nx kx cx r p kp cp sib g kg cg unc st) h

  -- A red uncle
  module _ (r : Side) (x : Tree) (p kp : Ptr) (cp : Bool) (sib : Tree) (g kg : Ptr)
      (cg : Bool) where
    pub red-Holds :
        (ul : Tree)
        → (u ku : Ptr) → (ur : Tree) → (st : Store)
        → Holds st s0 top x (frame r p kp cp sib ∷ (frame s g kg cg (branch ul u ku true ur) ∷ fs))
        → (st' : Store) × (push_round s (ptr st.sentinel x) p g st ≡ some (g, st'))
          × Holds st' s0 top
              (grow s (grow r x p kp false sib) g kg true (branch ul u ku false ur))
              fs
          × (st'.sentinel ≡ st.sentinel)
          × (st'.size ≡ st.size)
    unfolding push_round
    red-Holds ul u ku ur st h =
        let unc : Tree = branch ul u ku true ur in
        let unc' : Tree = branch ul u ku false ur in
        let par : Tree = grow r x p kp cp sib in
        let par' : Tree = grow r x p kp false sib in
        let h1 = up-Holds r x p kp cp sib st s0 top (frame s g kg cg unc ∷ fs) h in
        let hg = up-Holds s par g kg cg unc st s0 top fs h1 in
        let at_g = at_focus s par g kg cg unc st s0 top fs hg in
        let at_u = at_focus left ul u ku true ur st s0 top (frame (other s) g kg cg par ∷ fs) (
          down-Holds (other s) unc g kg cg par st s0 top fs
            (flip-Holds s par g kg cg unc st s0 top fs hg)) in
        let (st1, e1, g1, n1, z1, r1) =
          colour-Holds r x p kp cp false sib st s0 top (frame s g kg cg unc ∷ fs) h1 in
        let h2 = down-Holds (other s) unc g kg cg par' st1 s0 top fs (
          flip-Holds s par' g kg cg unc st1 s0 top fs
            (up-Holds s par' g kg cg unc st1 s0 top fs g1)) in
        let (st2, e2, g2, n2, z2, r2) =
          colour-Holds left ul u ku true false ur st1 s0 top (frame (other s) g kg cg par' ∷ fs)
            h2 in
        let h3 = up-Holds (other s) unc' g kg cg par' st2 s0 top fs g2 in
        let (st3, e3, g3, n3, z3, r3) =
          colour-Holds (other s) unc' g kg cg true par' st2 s0 top fs h3 in
        (
          st3,
          elim s [
            | left ↦ ground (arith, at_g, at_u, e1, e2, e3)
            | right ↦ ground (arith, at_g, at_u, e1, e2, e3)
          ],
          subst (λ t. Holds st3 s0 top t fs) (flip s unc' g kg true par') g3,
          ground arith,
          ground arith,
        )

  -- A black uncle
  module _ (xl : Tree) (nx kx : Ptr) (cx : Bool) (xr : Tree) (p kp : Ptr) (cp : Bool) (sib : Tree)
      (g kg : Ptr) (cg : Bool) (unc : Tree) (black : is_red unc ≡ false) where
    abbrev here : Tree
    here = branch xl nx kx cx xr

    uncle :
        (r : Side)
        → (st : Store) → Holds st s0 top here (frame r p kp cp sib ∷ (frame s g kg cg unc ∷ fs))
        → (n : Node) × (u : Node) × (st.cell g ≡ some n)
          × (st.cell (kid (other s) n) ≡ some u)
          × (u.red ≡ false)
    uncle r st h =
        let par : Tree = grow r here p kp cp sib in
        let h1 = up-Holds r here p kp cp sib st s0 top (frame s g kg cg unc ∷ fs) h in
        let hg = up-Holds s par g kg cg unc st s0 top fs h1 in
        let at_g = at_focus s par g kg cg unc st s0 top fs hg in
        let (u, e, b) =
          at_black unc st s0 top (frame (other s) g kg cg par ∷ fs)
            (down-Holds (other s) unc g kg cg par st s0 top fs
              (flip-Holds s par g kg cg unc st s0 top fs hg))
            black in
        (
          node_of s (ptr st.sentinel par) (ptr st.sentinel unc) kg (parent_of top fs) cg,
          u,
          at_g,
          elim s [ left ↦ ground (arith, e) | right ↦ ground (arith, e) ],
          b,
        )

    pub outer-Holds :
        (st : Store)
        → Holds st s0 top here (frame s p kp cp sib ∷ (frame s g kg cg unc ∷ fs))
        → (st' : Store) × (push_round s nx p g st ≡ some (nx, st'))
          × Holds st' s0 top (grow s here p kp false (grow s sib g kg true unc)) fs
          × (st'.sentinel ≡ st.sentinel)
          × (st'.size ≡ st.size)
    unfolding count count_up
    outer-Holds st h =
        let (n, u, eg, eu, bu) = uncle s st h in
        let (st', e, h', e1, e2) = turn_over-Holds xl nx kx cx xr p kp cp sib g kg cg unc st h in
        let at_p =
          at_focus s here p kp cp sib st s0 top (frame s g kg cg unc ∷ fs)
            (up-Holds s here p kp cp sib st s0 top (frame s g kg cg unc ∷ fs) h) in
        let ne : nx ≢ ptr st.sentinel sib =
          ground (arith, h.apart nx, h.sentinel_out, look-ptr st.sentinel p sib) in
        let ne' : nx ≢ kid (other s) (node_of s nx (ptr st.sentinel sib) kp g cp) = elim s [
          | left ↦ ground (arith, ne)
          | right ↦ ground (arith, ne)
        ] in
        (st', push_round-turn s nx p g st eg eu bu ∙ turn-outer s nx p st at_p ne' e, h', e1, e2)

    pub inner-Holds :
        (m f : Tree)
        → here ≡ grow s m nx kx cx f
        → (st : Store)
        → Holds st s0 top here (frame (other s) p kp cp sib ∷ (frame s g kg cg unc ∷ fs))
        → (st' : Store) × (push_round s nx p g st ≡ some (p, st'))
          × Holds st' s0 top (grow s (grow s sib p kp cp m) nx kx false (grow s f g kg true unc)) fs
          × (st'.sentinel ≡ st.sentinel)
          × (st'.size ≡ st.size)
    inner-Holds m f eh st h =
        let (n, u, eg, eu, bu) = uncle (other s) st h in
        let h1 = up-Holds (other s) here p kp cp sib st s0 top (frame s g kg cg unc ∷ fs) h in
        let at_p = at_focus (other s) here p kp cp sib st s0 top (frame s g kg cg unc ∷ fs) h1 in
        let eq : nx ≡ kid (other s) (node_of (other s) nx (ptr st.sentinel sib) kp g cp) = elim s [
          | left ↦ ground arith
          | right ↦ ground arith
        ] in
        let h2 =
          subst (λ t. Holds st s0 top t (frame s g kg cg unc ∷ fs)) (flip s here p kp cp sib) h1 in
        let h3 =
          subst (λ t. Holds st s0 top (grow s sib p kp cp t) (frame s g kg cg unc ∷ fs)) eh h2 in
        let (st1, er, g1, n1, z1) =
          rotate-Holds s sib p kp cp m nx kx cx f st s0 top (frame s g kg cg unc ∷ fs) h3 in
        let h4 =
          down-Holds s (grow s sib p kp cp m) nx kx cx f st1 s0 top (frame s g kg cg unc ∷ fs) g1 in
        let (st2, e, g2, n2, z2) = turn_low sib p kp cp m nx kx cx f g kg cg unc st1 h4 in
        (
          st2,
          push_round-turn s nx p g st eg eu bu ∙ turn-inner s nx p st at_p eq er e,
          g2,
          ground arith,
          ground arith,
        )
