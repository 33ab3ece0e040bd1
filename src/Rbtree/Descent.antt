-- ===== src/Rbtree/Descent.antt =====
-- zbaselib_rbtree.c: the walk of an insertion down to the place of the new key.
use zbaselib.Prelude.{
  ℕ, zero, suc, ◌+◌, ◌≤◌, ◌<◌, Bool, true, false, not, Option, some, ◌==◌, if◌then◌else◌, [], ◌∷◌,
  ◌++◌, ◌≡◌, ◌≢◌, refl, arith, inl, inr, Bool-cases, length, max,
}
use zbaselib.Rbtree.Store.{Ptr, Side, left, right, Node, Store, kid}
use zbaselib.Rbtree.Defs.{Compare, place}
use zbaselib.Rbtree.Tree.{Tree, leaf, branch, frame, PathUp, grow, ptr, count, Holds, plug, keys}
use zbaselib.Rbtree.Focus.{at_focus, down-Holds}
use zbaselib.Rbtree.Order.{
  IsOrder, comes_before, all, sorted, all-append, all_mono, sorted-around, lower, upper,
}

-- The nodes on the longest way down
unfoldable pub depth : Tree → ℕ
depth leaf = 0
depth (branch l a k c r) = suc (max (depth l) (depth r))

-- The free place at the end of a walk for `key`, in the tree `whole`
pub record Slot (cmp : Compare) (key : Ptr) (st : Store) (s0 : Node) (top : Ptr) (whole : Tree)
    (room : ℕ) (run : Option (Ptr × Side)) : Type 0 where
  pub side : Side
  pub at : Ptr
  pub at_key : Ptr
  pub c : Bool
  pub sibling : Tree
  pub rest : PathUp
  pub run_eq : run ≡ some (at, side)
  pub holds : Holds st s0 top leaf (frame side at at_key c sibling ∷ rest)
  pub whole_eq : plug leaf (frame side at at_key c sibling ∷ rest) ≡ whole
  pub below :
      all (λ e. not (comes_before cmp key e)) (lower (frame side at at_key c sibling ∷ rest)) ≡ true
  pub above : all (comes_before cmp key) (upper (frame side at at_key c sibling ∷ rest)) ≡ true
  pub short : length rest < room

kid_free :
    (t : Tree)
    → (st : Store) → (s0 : Node) → (top : Ptr) → (fs : PathUp) → Holds st s0 top t fs
    → (ptr st.sentinel t == st.sentinel) ≡ false
    → (l : Tree) × (a : Ptr) × (k : Ptr) × (c : Bool) × (r : Tree) × (t ≡ branch l a k c r)
kid_free leaf st s0 top fs h e = ground arith
kid_free (branch l a k c r) st s0 top fs h e = (l, a, k, c, r, refl)

module _ (cmp : Compare) (o : IsOrder cmp) (key : Ptr) (st : Store) (s0 : Node) (top : Ptr) where
  abbrev Clear : PathUp → Type 0
  Clear fs =
      (all (λ e. not (comes_before cmp key e)) (lower fs) ≡ true)
      × (all (comes_before cmp key) (upper fs) ≡ true)

  Clear-left :
      (l : Tree)
      → (a k : Ptr) → (c : Bool) → (r : Tree) → (fs : PathUp) → Clear fs
      → sorted cmp (keys (branch l a k c r)) ≡ true
      → comes_before cmp key k ≡ true
      → Clear (frame left a k c r ∷ fs)
  unfolding lower upper all keys
  Clear-left l a k c r fs (lo, hi) so e =
      let (x, y, z, w) = sorted-around cmp (keys l) k (keys r) so in
      let gone =
        all_mono (λ e. not (comes_before cmp e k)) (comes_before cmp key) (keys r)
          (λ f hf. ground (arith, o.through k f key, e)) y in
      (lo, ground (arith, e, gone, all-append (comes_before cmp key) (keys r) (upper fs), hi))

  Clear-right :
      (l : Tree)
      → (a k : Ptr) → (c : Bool) → (r : Tree) → (fs : PathUp) → Clear fs
      → sorted cmp (keys (branch l a k c r)) ≡ true
      → comes_before cmp key k ≡ false
      → Clear (frame right a k c l ∷ fs)
  unfolding lower upper all keys
  Clear-right l a k c r fs (lo, hi) so e =
      let (x, y, z, w) = sorted-around cmp (keys l) k (keys r) so in
      let gone =
        all_mono (λ e. not (comes_before cmp k e)) (λ e. not (comes_before cmp key e)) (keys l)
          (λ f hf. ground (arith, o.through f k key, e)) x in
      (
        ground (
          arith,
          e,
          gone,
          all-append (λ e. not (comes_before cmp key e)) (lower fs) (keys l ++ (k ∷ [])),
          all-append (λ e. not (comes_before cmp key e)) (keys l) (k ∷ []),
          lo,
        ),
        hi,
      )

  place-step :
      (s : Side)
      → (fuel : ℕ) → (temp k q : Ptr) → {n : Node} → st.cell temp ≡ some n
      → n.key ≡ k
      → kid s n ≡ q
      → (if comes_before cmp key k then left else right) ≡ s
      → place (suc fuel) cmp key temp st
        ≡ (if q == st.sentinel then some (temp, s) else place fuel cmp key q st)
  unfolding place
  place-step left fuel temp k q e ek eq es = ground arith
  place-step right fuel temp k q e ek eq es = ground arith

  abbrev FoundAt : ℕ → Tree → PathUp → Type 0
  FoundAt fuel t fs =
      Slot cmp key st s0 top (plug t fs) (length fs + depth t)
        (place fuel cmp key (ptr st.sentinel t) st)

  -- One step of the walk, by what there is on the side it goes to
  module _ (s : Side) (fuel : ℕ) (a k : Ptr) (c : Bool) (far : Tree) (fs : PathUp)
      (side_eq : (if comes_before cmp key k then left else right) ≡ s)
      (clear : Clear (frame s a k c far ∷ fs)) where
    stop_here :
        Holds st s0 top (grow s leaf a k c far) fs → FoundAt (suc fuel) (grow s leaf a k c far) fs
    unfolding plug depth
    stop_here h =
        let at = at_focus s leaf a k c far st s0 top fs h in
        record {
          side = s;
          at = a;
          at_key = k;
          c = c;
          sibling = far;
          rest = fs;
          run_eq =
              let step =
                place-step s fuel a k st.sentinel at
                  (elim s [ left ↦ ground arith | right ↦ ground arith ])
                  (elim s [ left ↦ ground arith | right ↦ ground arith ]) side_eq in
              elim s [ left ↦ ground (arith, step) | right ↦ ground (arith, step) ];
          holds = down-Holds s leaf a k c far st s0 top fs h;
          whole_eq = refl;
          below = clear.0;
          above = clear.1;
          short = elim s [ left ↦ ground arith | right ↦ ground arith ];
        }

    go_on :
        (l : Tree)
        → (b k' : Ptr) → (c' : Bool) → (r : Tree)
        → Holds st s0 top (grow s (branch l b k' c' r) a k c far) fs
        → FoundAt fuel (branch l b k' c' r) (frame s a k c far ∷ fs)
        → FoundAt (suc fuel) (grow s (branch l b k' c' r) a k c far) fs
    unfolding plug depth count
    go_on l b k' c' r h d =
        let at = at_focus s (branch l b k' c' r) a k c far st s0 top fs h in
        let ne : b ≢ st.sentinel = elim s [
          | left ↦ ground (arith, h.sentinel_out)
          | right ↦ ground (arith, h.sentinel_out)
        ] in
        record {
          side = d.side;
          at = d.at;
          at_key = d.at_key;
          c = d.c;
          sibling = d.sibling;
          rest = d.rest;
          run_eq =
              let step =
                place-step s fuel a k b at (elim s [ left ↦ ground arith | right ↦ ground arith ])
                  (elim s [ left ↦ ground arith | right ↦ ground arith ]) side_eq in
              elim s [
                | left ↦ ground (arith, step, ne, d.run_eq)
                | right ↦ ground (arith, step, ne, d.run_eq)
              ];
          holds = d.holds;
          whole_eq = d.whole_eq;
          below = d.below;
          above = d.above;
          short = elim s [ left ↦ ground (arith, d.short) | right ↦ ground (arith, d.short) ];
        }

  pub place-Slot :
      (fuel : ℕ)
      → (l : Tree) → (a k : Ptr) → (c : Bool) → (r : Tree) → (fs : PathUp)
      → Holds st s0 top (branch l a k c r) fs
      → sorted cmp (keys (branch l a k c r)) ≡ true
      → Clear fs
      → depth (branch l a k c r) ≤ fuel
      → FoundAt fuel (branch l a k c r) fs
  unfolding depth keys
  place-Slot zero l a k c r fs h so cl lt = ground arith
  place-Slot (suc fuel) leaf a k c leaf fs h so cl lt =
      let (x, y, z, w) = sorted-around cmp (keys leaf) k (keys leaf) so in
      elim (Bool-cases (comes_before cmp key k)) [
        | inl e ↦
            stop_here left fuel a k c leaf fs (ground arith) (Clear-left leaf a k c leaf fs cl so e)
              h
        | inr e ↦
            stop_here right fuel a k c leaf fs (ground arith)
              (Clear-right leaf a k c leaf fs cl so e) h
      ]
  place-Slot (suc fuel) leaf a k c (branch rl d kd cd rr) fs h so cl lt =
      let (x, y, z, w) = sorted-around cmp (keys leaf) k (keys (branch rl d kd cd rr)) so in
      elim (Bool-cases (comes_before cmp key k)) [
        | inl e ↦
            stop_here left fuel a k c (branch rl d kd cd rr) fs (ground arith)
              (Clear-left leaf a k c (branch rl d kd cd rr) fs cl so e) h
        | inr e ↦
            go_on right fuel a k c leaf fs (ground arith)
              (Clear-right leaf a k c (branch rl d kd cd rr) fs cl so e) rl d kd cd rr h
              (place-Slot fuel rl d kd cd rr (frame right a k c leaf ∷ fs)
                (down-Holds right (branch rl d kd cd rr) a k c leaf st s0 top fs h) w
                (Clear-right leaf a k c (branch rl d kd cd rr) fs cl so e) (omega arith))
      ]
  place-Slot (suc fuel) (branch ll b kb cb lr) a k c leaf fs h so cl lt =
      let (x, y, z, w) = sorted-around cmp (keys (branch ll b kb cb lr)) k (keys leaf) so in
      elim (Bool-cases (comes_before cmp key k)) [
        | inl e ↦
            go_on left fuel a k c leaf fs (ground arith)
              (Clear-left (branch ll b kb cb lr) a k c leaf fs cl so e) ll b kb cb lr h
              (place-Slot fuel ll b kb cb lr (frame left a k c leaf ∷ fs)
                (down-Holds left (branch ll b kb cb lr) a k c leaf st s0 top fs h) z
                (Clear-left (branch ll b kb cb lr) a k c leaf fs cl so e) (omega arith))
        | inr e ↦
            stop_here right fuel a k c (branch ll b kb cb lr) fs (ground arith)
              (Clear-right (branch ll b kb cb lr) a k c leaf fs cl so e) h
      ]
  place-Slot (suc fuel) (branch ll b kb cb lr) a k c (branch rl d kd cd rr) fs h so cl lt =
      let (x, y, z, w) =
        sorted-around cmp (keys (branch ll b kb cb lr)) k (keys (branch rl d kd cd rr)) so in
      elim (Bool-cases (comes_before cmp key k)) [
        | inl e ↦
            go_on left fuel a k c (branch rl d kd cd rr) fs (ground arith)
              (Clear-left (branch ll b kb cb lr) a k c (branch rl d kd cd rr) fs cl so e) ll b kb cb
              lr h
              (place-Slot fuel ll b kb cb lr (frame left a k c (branch rl d kd cd rr) ∷ fs)
                (down-Holds left (branch ll b kb cb lr) a k c (branch rl d kd cd rr) st s0 top fs h)
                z (Clear-left (branch ll b kb cb lr) a k c (branch rl d kd cd rr) fs cl so e)
                (omega arith))
        | inr e ↦
            go_on right fuel a k c (branch ll b kb cb lr) fs (ground arith)
              (Clear-right (branch ll b kb cb lr) a k c (branch rl d kd cd rr) fs cl so e) rl d kd
              cd rr h
              (place-Slot fuel rl d kd cd rr (frame right a k c (branch ll b kb cb lr) ∷ fs)
                (down-Holds right (branch rl d kd cd rr) a k c (branch ll b kb cb lr) st s0 top fs
                  h)
                w (Clear-right (branch ll b kb cb lr) a k c (branch rl d kd cd rr) fs cl so e)
                (omega arith))
      ]
