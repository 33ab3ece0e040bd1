-- ===== src/Rbtree/Loop.antt =====
-- zbaselib_rbtree.c: the loop that repairs an insertion.
use zbaselib.Prelude.{
  ℕ, suc, Bool, true, false, Option, some, ◌==◌, if◌then◌else◌, List, [], ◌∷◌, ◌≡◌, ◌≢◌, refl, sym,
  ◌∙◌, subst, arith,
}
use zbaselib.Rbtree.Store.{Ptr, Side, left, right, Node, Store}
use zbaselib.Rbtree.Defs.{push_round, push_loop}
use zbaselib.Rbtree.Tree.{
  Tree, leaf, branch, Frame, frame, PathUp, grow, node_of, ptr, parent_of, count, count_up, Holds,
  look-ptr, root_of-counted, plug, nodes,
}
use zbaselib.Rbtree.Focus.{up-Holds, plug-Holds, at_focus}
use zbaselib.Rbtree.Balance.{
  is_red, height, balanced, fits, blacken, blacken-balanced, plug-balanced,
}

-- A run of code that leaves a tree with the nodes `ns`, red-black but for a red root.
pub record Repaired (st : Store) (s0 : Node) (top : Ptr) (ns : List (Ptr × Ptr))
    (run : Option Store) : Type 0 where
  pub out : Store
  pub tree : Tree
  pub out_eq : run ≡ some out
  pub holds : Holds out s0 top tree []
  pub nodes_eq : nodes tree ≡ ns
  pub red_black : balanced (blacken tree) ≡ true
  pub sentinel_eq : out.sentinel ≡ st.sentinel
  pub size_eq : out.size ≡ st.size

pub push_loop-root :
    (fuel : ℕ)
    → (node : Ptr) → (st : Store) → node ≡ st.root
    → push_loop (suc fuel) node st ≡ some st
unfolding push_loop
push_loop-root fuel node st e = ground arith

push_loop-stop :
    (fuel : ℕ)
    → (node : Ptr) → (st : Store) → {n p : Node} → node ≢ st.root
    → st.cell node ≡ some n
    → st.cell n.parent ≡ some p
    → p.red ≡ false
    → push_loop (suc fuel) node st ≡ some st
unfolding push_loop
push_loop-stop fuel node st ne en ep er = ground arith

push_loop-round :
    (s : Side)
    → (fuel : ℕ) → (node parent grand : Ptr) → (st : Store) → {n p g : Node} → node ≢ st.root
    → st.cell node ≡ some n
    → n.parent ≡ parent
    → st.cell parent ≡ some p
    → p.red ≡ true
    → p.parent ≡ grand
    → st.cell grand ≡ some g
    → (if parent == g.left_kid then left else right) ≡ s
    → (node' : Ptr) → (st' : Store) → push_round s node parent grand st ≡ some (node', st')
    → push_loop (suc fuel) node st ≡ push_loop fuel node' st'
unfolding push_loop
push_loop-round s fuel node parent grand st ne en en' ep er ep' eg es node' st' e = ground arith

below_root :
    (x : Tree)
    → (f : Frame) → (fs : PathUp) → (st : Store) → (s0 : Node) → (top : Ptr) → is_red x ≡ true
    → Holds st s0 top x (f ∷ fs)
    → ptr st.sentinel x ≢ st.root
unfolding count
below_root leaf f fs st s0 top r h = ground arith
below_root (branch l a k c t) f fs st s0 top r h =
    ground (arith, h.apart a, h.root_eq, root_of-counted a f fs)

at_red :
    (x : Tree)
    → (st : Store) → (s0 : Node) → (top : Ptr) → (fs : PathUp) → is_red x ≡ true
    → Holds st s0 top x fs
    → (n : Node) × (st.cell (ptr st.sentinel x) ≡ some n) × (n.parent ≡ parent_of top fs)
at_red leaf st s0 top fs r h = ground arith
at_red (branch l a k c t) st s0 top fs r h = (
  node_of left (ptr st.sentinel l) (ptr st.sentinel t) k (parent_of top fs) c,
  at_focus left l a k c t st s0 top fs h,
  refl,
)

-- A black parent ends the loop.
pub stop-Repaired :
    (fuel : ℕ)
    → (x : Tree) → (s : Side) → (p k : Ptr) → (sib : Tree) → (fs : PathUp) → (st : Store)
    → (s0 : Node) → (top : Ptr) → Holds st s0 top x (frame s p k false sib ∷ fs)
    → is_red x ≡ true
    → balanced x ≡ true
    → fits (height x) (frame s p k false sib ∷ fs) ≡ true
    → Repaired st s0 top
        (nodes (plug x (frame s p k false sib ∷ fs)))
        (push_loop (suc fuel) (ptr st.sentinel x) st)
stop-Repaired fuel x s p k sib fs st s0 top h r b f =
    let up : PathUp = frame s p k false sib ∷ fs in
    let (n, en, pn) = at_red x st s0 top up r h in
    let at_p =
      at_focus s x p k false sib st s0 top fs (up-Holds s x p k false sib st s0 top fs h) in
    record {
      out = st;
      tree = plug x up;
      out_eq =
          push_loop-stop fuel (ptr st.sentinel x) st
            (below_root x (frame s p k false sib) fs st s0 top r h) en
            (subst
              (λ q.
                st.cell q
                ≡ some (
                    node_of s (ptr st.sentinel x) (ptr st.sentinel sib) k (parent_of top fs) false))
              (sym pn) at_p)
            (elim s [ left ↦ ground arith | right ↦ ground arith ]);
      holds = plug-Holds x up st s0 top h;
      nodes_eq = refl;
      red_black = blacken-balanced (plug x up) (plug-balanced x up b f (ground arith));
      sentinel_eq = refl;
      size_eq = refl;
    }

side_lem :
    (s r : Side)
    → (x : Tree) → (p kp : Ptr) → (sib unc : Tree) → (sent kg up : Ptr) → (cg : Bool)
    → p ≢ ptr sent unc
    → (if p == (node_of s (ptr sent (grow r x p kp true sib)) (ptr sent unc) kg up cg).left_kid
        then left
        else right)
      ≡ s
side_lem left left x p kp sib unc sent kg up cg ne = ground arith
side_lem left right x p kp sib unc sent kg up cg ne = ground arith
side_lem right left x p kp sib unc sent kg up cg ne = ground arith
side_lem right right x p kp sib unc sent kg up cg ne = ground arith

-- A round of the loop, by what the round does.
pub loop-round :
    (x : Tree)
    → (r s : Side) → (p kp : Ptr) → (sib : Tree) → (g kg : Ptr) → (cg : Bool) → (unc : Tree)
    → (fs : PathUp) → (st : Store) → (s0 : Node) → (top : Ptr)
    → Holds st s0 top x (frame r p kp true sib ∷ (frame s g kg cg unc ∷ fs))
    → is_red x ≡ true
    → (fuel : ℕ) → (node' : Ptr) → (st' : Store)
    → push_round s (ptr st.sentinel x) p g st ≡ some (node', st')
    → push_loop (suc fuel) (ptr st.sentinel x) st ≡ push_loop fuel node' st'
unfolding count count_up
loop-round x r s p kp sib g kg cg unc fs st s0 top h red fuel node' st' e =
    let par : Tree = grow r x p kp true sib in
    let h1 = up-Holds r x p kp true sib st s0 top (frame s g kg cg unc ∷ fs) h in
    let (n, en, pn) =
      at_red x st s0 top (frame r p kp true sib ∷ (frame s g kg cg unc ∷ fs)) red h in
    let at_p = at_focus r x p kp true sib st s0 top (frame s g kg cg unc ∷ fs) h1 in
    let at_g =
      at_focus s par g kg cg unc st s0 top fs (up-Holds s par g kg cg unc st s0 top fs h1) in
    let ne : p ≢ ptr st.sentinel unc = elim r [
      | left ↦ ground (arith, h.apart p, h.sentinel_out, look-ptr st.sentinel g unc)
      | right ↦ ground (arith, h.apart p, h.sentinel_out, look-ptr st.sentinel g unc)
    ] in
    push_loop-round s fuel (ptr st.sentinel x) p g st
      (below_root x (frame r p kp true sib) (frame s g kg cg unc ∷ fs) st s0 top red h) en pn at_p
      (elim r [ left ↦ ground arith | right ↦ ground arith ])
      (elim r [ left ↦ ground arith | right ↦ ground arith ]) at_g
      (side_lem s r x p kp sib unc st.sentinel kg (parent_of top fs) cg ne) node' st' e

pub carry :
    {st st' : Store} {s0 : Node} {top : Ptr} {ks ks' : List (Ptr × Ptr)} {run run' : Option Store}
    → Repaired st' s0 top ks' run'
    → run ≡ run'
    → ks' ≡ ks
    → st'.sentinel ≡ st.sentinel
    → st'.size ≡ st.size
    → Repaired st s0 top ks run
carry d er ek en ez = record {
  out = d.out;
  tree = d.tree;
  out_eq = er ∙ d.out_eq;
  holds = d.holds;
  nodes_eq = d.nodes_eq ∙ ek;
  red_black = d.red_black;
  sentinel_eq = d.sentinel_eq ∙ en;
  size_eq = d.size_eq ∙ ez;
}
