-- ===== src/Dlist/Walk.antt =====
-- zbaselib_list.c: the walks along the ring: `zlist_get_node`, `_size`, `_empty`, `_find`, `_foreach`.
use zbaselib.Prelude.{
  ℕ, zero, suc, ◌+◌, ◌^◌, ◌<◌, ◌≡◌, ◌≢◌, Bool, true, false, some, [], ◌∷◌, arith, length,
}
use zbaselib.Prelude.Int.{pos}
use zbaselib.Dlist.Heap.{Ptr, null, Node, Heap, load}
use zbaselib.Dlist.Ring.{Cells, has, first_or, Linked, IsRing, node_of_next, load-ok, next-Linked}
use zbaselib.Dlist.Defs.{Dlist, empty, get_node_loop, get_node, size_loop, size}

-- The address at an index, or NULL.
abbrev pub addr_at : Cells → ℕ → Ptr
addr_at [] i = null
addr_at ((p, d) ∷ xs) zero = p
addr_at ((p, d) ∷ xs) (suc i) = addr_at xs i

abbrev pub is_nil : Cells → Bool
is_nil [] = true
is_nil (x ∷ xs) = false

-- Part of a ring, from the node at `a` to the head.
pub record Tail (h : Heap) (head a : Ptr) (xs : Cells) : Type 0 where
  pub start_ne : a ≢ null
  pub rest : Linked h a xs head
  pub no_head : has head xs ≡ false
  pub no_null : has null xs ≡ false

pub whole-Tail : {h : Heap} {head : Ptr} {xs : Cells} → IsRing h head xs → Tail h head head xs
whole-Tail r = record {
  start_ne = r.head_ne;
  rest = r.links;
  no_head = r.apart;
  no_null = r.nonnull;
}

pub rest-Tail :
    (h : Heap) (head a p d : Ptr) (xs : Cells)
    → Tail h head a ((p, d) ∷ xs)
    → Tail h head p xs × (p ≢ head)
rest-Tail h head a p d xs t = (
  record {
    start_ne = ground (arith, t.no_null);
    rest = t.rest.3;
    no_head = ground (arith, t.no_head);
    no_null = ground (arith, t.no_null);
  },
  ground (arith, t.no_head),
)

-- Loading the node at the start of a tail.
pub load-Tail :
    (h : Heap) (head a : Ptr) (xs : Cells)
    → Tail h head a xs
    → (n : Node) × (load a h ≡ some (n, h)) × (n.next ≡ first_or xs head)
load-Tail h head a xs t =
    let (n, e, k) = node_of_next (h.cell a) (next-Linked h a xs head t.rest) in
    (n, load-ok h a t.start_ne e, k)

pub load-Tail_next :
    (h : Heap) (head a p d : Ptr) (xs : Cells)
    → Tail h head a ((p, d) ∷ xs)
    → (n : Node) × (load p h ≡ some (n, h)) × (n.payload ≡ d) × (n.prev ≡ a)
load-Tail_next h head a p d xs t =
    let (t', ne) = rest-Tail h head a p d xs t in
    let (n, e, k) = node_of_next (h.cell p) (next-Linked h p xs head t'.rest) in
    (n, load-ok h p t'.start_ne e, ground (arith, t.rest), ground (arith, t.rest))

pub empty-is_nil :
    (h : Heap) (thiz : Dlist) (xs : Cells)
    → IsRing h thiz.head xs
    → empty (some thiz) h ≡ some (is_nil xs, h)
unfolding empty
empty-is_nil h thiz [] r =
    let (n, e, k) = load-Tail h thiz.head thiz.head [] (whole-Tail r) in ground arith
empty-is_nil h thiz ((p, d) ∷ xs) r =
    let (n, e, k) = load-Tail h thiz.head thiz.head ((p, d) ∷ xs) (whole-Tail r) in
    let (t, ne) = rest-Tail h thiz.head thiz.head p d xs (whole-Tail r) in ground arith

module _ (h : Heap) (thiz : Dlist) where
  get_node_loop-addr_at :
      (i : ℕ) (a : Ptr) (xs : Cells)
      → Tail h thiz.head a xs
      → get_node_loop thiz.head (suc i) a h ≡ some (addr_at xs i, h)
  unfolding get_node_loop
  get_node_loop-addr_at i a [] t = let (n, e, k) = load-Tail h thiz.head a [] t in ground arith
  get_node_loop-addr_at zero a ((p, d) ∷ xs) t =
      let (n, e, k) = load-Tail h thiz.head a ((p, d) ∷ xs) t in
      let (t', ne) = rest-Tail h thiz.head a p d xs t in
      let (m, f, l) = load-Tail h thiz.head p xs t' in ground arith
  get_node_loop-addr_at (suc i) a ((p, d) ∷ xs) t =
      let (n, e, k) = load-Tail h thiz.head a ((p, d) ∷ xs) t in
      let (t', ne) = rest-Tail h thiz.head a p d xs t in
      ground (arith, get_node_loop-addr_at i p xs t')

  -- `zlist_get_node` finds the node at the index, and NULL past the end.
  pub get_node-addr_at :
      (i : ℕ) (xs : Cells)
      → IsRing h thiz.head xs
      → get_node (some thiz) (pos i) h ≡ some (addr_at xs i, h)
  unfolding get_node
  get_node-addr_at i [] r =
      let (n, e, k) = load-Tail h thiz.head thiz.head [] (whole-Tail r) in ground arith
  get_node-addr_at i ((p, d) ∷ xs) r =
      let t = whole-Tail r in
      let (n, e, k) = load-Tail h thiz.head thiz.head ((p, d) ∷ xs) t in
      let (t', ne) = rest-Tail h thiz.head thiz.head p d xs t in
      ground (arith, get_node_loop-addr_at i thiz.head ((p, d) ∷ xs) t)

  pub size_loop-length :
      (fuel : ℕ) (a : Ptr) (xs : Cells) (n : ℕ)
      → Tail h thiz.head a xs
      → length xs < fuel
      → n + length xs < 2 ^ 31
      → size_loop fuel thiz.head a n h ≡ some (n + length xs, h)
  unfolding size_loop
  size_loop-length zero a xs n t lt small = absurd (omega arith)
  size_loop-length (suc fuel) a [] n t lt small =
      let (m, e, k) = load-Tail h thiz.head a [] t in ground arith
  size_loop-length (suc fuel) a ((p, d) ∷ xs) n t lt small =
      let (m, e, k) = load-Tail h thiz.head a ((p, d) ∷ xs) t in
      let (t', ne) = rest-Tail h thiz.head a p d xs t in
      ground (arith, size_loop-length fuel p xs (n + 1) t')

  -- `zbaselib_list_size` of a list of fewer than 2^31 elements is their number, given more fuel than that.
  pub size-length :
      (fuel : ℕ) (xs : Cells)
      → IsRing h thiz.head xs
      → length xs < fuel
      → length xs < 2 ^ 31
      → size fuel (some thiz) h ≡ some (pos (length xs), h)
  unfolding size
  size-length fuel xs r lt small =
      ground (arith, size_loop-length fuel thiz.head xs 0 (whole-Tail r))
