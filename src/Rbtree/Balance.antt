-- ===== src/Rbtree/Balance.antt =====
-- zbaselib_rbtree.c: what it is for a tree to be red-black, by the subtrees and along a path.
use zbaselib.Prelude.{
  ℕ, ◌+◌, Bool, true, false, ◌&&◌, ◌||◌, [], ◌∷◌, ◌++◌, if◌then◌else◌, ◌==◌, append_assoc, ◌≡◌,
  refl, arith, ap, sym, not,
}
use zbaselib.Rbtree.Store.{Ptr, Side, left, right}
use zbaselib.Rbtree.Tree.{Tree, leaf, branch, frame, PathUp, grow, plug, nodes}

abbrev pub is_red : Tree → Bool
is_red leaf = false
is_red (branch l a k c r) = c

-- The black nodes on the way down the left side
unfoldable pub height : Tree → ℕ
height leaf = 0
height (branch l a k c r) = (if c then 0 else 1) + height l

-- No red node has a red child, and all ways down have the same number of black nodes.
unfoldable pub balanced : Tree → Bool
unfolding height
balanced leaf = true
balanced (branch l a k c r) =
    (height l == height r) && not (c && (is_red l || is_red r)) && balanced l && balanced r

-- Whether the parent is red
abbrev pub red_above : PathUp → Bool
red_above [] = false
red_above (frame s p k c sib ∷ fs) = c

-- A path fits a balanced subtree of height `n`.
unfoldable pub fits : ℕ → PathUp → Bool
unfolding height balanced
fits n [] = true
fits n (frame s p k c sib ∷ fs) =
    (height sib == n)
    && not (c && (is_red sib || red_above fs))
    && balanced sib
    && fits ((if c then 0 else 1) + n) fs

unfoldable pub black_root : PathUp → Bool
black_root [] = true
black_root (frame s p k c sib ∷ []) = not c
black_root (frame s p k c sib ∷ (f ∷ fs)) = black_root (f ∷ fs)

pub plug-balanced :
    (t : Tree)
    → (fs : PathUp) → balanced t ≡ true
    → fits (height t) fs ≡ true
    → is_red t && red_above fs ≡ false
    → balanced (plug t fs) ≡ true
unfolding plug fits height balanced
plug-balanced t [] b f r = b
plug-balanced t (frame left p k c sib ∷ fs) b f r =
    ground (arith, plug-balanced (branch t p k c sib) fs)
plug-balanced t (frame right p k c sib ∷ fs) b f r =
    ground (arith, plug-balanced (branch sib p k c t) fs)

pub plug-nodes :
    (t u : Tree) → (fs : PathUp) → nodes t ≡ nodes u → nodes (plug t fs) ≡ nodes (plug u fs)
unfolding plug nodes
plug-nodes t u [] e = e
plug-nodes t u (frame left p k c sib ∷ fs) e =
    plug-nodes (branch t p k c sib) (branch u p k c sib) fs (ap (λ l. l ++ ((p, k) ∷ nodes sib)) e)
plug-nodes t u (frame right p k c sib ∷ fs) e =
    plug-nodes (branch sib p k c t) (branch sib p k c u) fs (ap (λ l. nodes sib ++ ((p, k) ∷ l)) e)

pub turn-nodes :
    (s : Side)
    → (near : Tree) → (a k : Ptr) → (c d : Bool) → (mid : Tree) → (b k' : Ptr) → (c' d' : Bool)
    → (far : Tree)
    → nodes (grow s (grow s near a k c mid) b k' c' far)
      ≡ nodes (grow s near a k d (grow s mid b k' d' far))
unfolding nodes
turn-nodes left near a k c d mid b k' c' d' far =
    append_assoc (nodes near) ((a, k) ∷ nodes mid) ((b, k') ∷ nodes far)
turn-nodes right near a k c d mid b k' c' d' far =
    sym (append_assoc (nodes far) ((b, k') ∷ nodes mid) ((a, k) ∷ nodes near))

abbrev pub blacken : Tree → Tree
blacken leaf = leaf
blacken (branch l a k c r) = branch l a k false r

pub blacken-balanced : (t : Tree) → balanced t ≡ true → balanced (blacken t) ≡ true
unfolding balanced
blacken-balanced leaf b = refl
blacken-balanced (branch l a k c r) b = ground arith

-- The parts of a balanced tree, by a path
pub unplug-balanced :
    (t : Tree)
    → (fs : PathUp) → balanced (plug t fs) ≡ true
    → (balanced t ≡ true) × (fits (height t) fs ≡ true) × (is_red t && red_above fs ≡ false)
unfolding plug fits height balanced
unplug-balanced t [] b = (b, refl, ground arith)
unplug-balanced t (frame left p k c sib ∷ fs) b =
    let (x, y, z) = unplug-balanced (branch t p k c sib) fs b in
    (ground arith, ground arith, ground arith)
unplug-balanced t (frame right p k c sib ∷ fs) b =
    let (x, y, z) = unplug-balanced (branch sib p k c t) fs b in
    (ground arith, ground arith, ground arith)

pub black_root-plug : (t : Tree) → (fs : PathUp) → is_red (plug t fs) ≡ false → black_root fs ≡ true
unfolding plug black_root
black_root-plug t [] h = refl
black_root-plug t (frame left p k c sib ∷ []) h = ground arith
black_root-plug t (frame right p k c sib ∷ []) h = ground arith
black_root-plug t (frame left p k c sib ∷ (f ∷ fs)) h =
    black_root-plug (branch t p k c sib) (f ∷ fs) h
black_root-plug t (frame right p k c sib ∷ (f ∷ fs)) h =
    black_root-plug (branch sib p k c t) (f ∷ fs) h
