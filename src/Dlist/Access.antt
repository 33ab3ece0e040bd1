-- ===== src/Dlist/Access.antt =====
-- zbaselib_list.c: `zbaselib_list_gethead`, `_gettail` and `_get` read the ring and change nothing.
use zbaselib.Prelude.{ℕ, zero, suc, ◌≡◌, refl, some, List, [], ◌∷◌, arith, ◌==◌, if◌then◌else◌}
use zbaselib.Prelude.Int.{pos}
use zbaselib.Dlist.Heap.{Ptr, null, Node, Heap, ◌>>=◌, load}
use zbaselib.Dlist.Ring.{Cells, last_or, IsRing, load-ok, node_of_prev, prev-Linked, payloads}
use zbaselib.Dlist.Defs.{Dlist}
use zbaselib.Dlist.Ops.{gethead, gettail, get}
use zbaselib.Dlist.Walk.{
  Tail, addr_at, whole-Tail, rest-Tail, load-Tail, load-Tail_next, empty-is_nil, get_node-addr_at,
}

-- The data at an index, or NULL.
abbrev pub data_at : List Ptr → ℕ → Ptr
data_at [] i = null
data_at (d ∷ ds) zero = d
data_at (d ∷ ds) (suc i) = data_at ds i

abbrev pub last_data : List Ptr → Ptr → Ptr
last_data [] d = d
last_data (e ∷ ds) d = last_data ds e

module _ (h : Heap) (head : Ptr) where
  load-addr_at :
      (i : ℕ) (a : Ptr) (xs : Cells)
      → Tail h head a xs
      → (if addr_at xs i == null
          then some (null, h)
          else (load (addr_at xs i) >>= λ n h'. some (n.payload, h')) h)
        ≡ some (data_at (payloads xs) i, h)
  load-addr_at i a [] t = refl
  load-addr_at zero a ((p, d) ∷ xs) t =
      let (n, e, v, w) = load-Tail_next h head a p d xs t in
      let (t', ne) = rest-Tail h head a p d xs t in ground (arith, t'.start_ne)
  load-addr_at (suc i) a ((p, d) ∷ xs) t = load-addr_at i p xs (rest-Tail h head a p d xs t).0

  load-last_or :
      (a : Ptr) (p d : Ptr) (xs : Cells)
      → Tail h head a ((p, d) ∷ xs)
      → (n : Node) × (load (last_or xs p) h ≡ some (n, h)) × (n.payload ≡ last_data (payloads xs) d)
  load-last_or a p d [] t = let (n, e, v, w) = load-Tail_next h head a p d [] t in (n, e, v)
  load-last_or a p d ((q, e) ∷ xs) t =
      load-last_or p q e xs (rest-Tail h head a p d ((q, e) ∷ xs) t).0

-- On a ring `zbaselib_list_get` returns the data at an index, `_gethead` that of the first and
-- `_gettail` that of the last element, each NULL where there is none; the heap stays as it is.
pub get-data_at :
    (h : Heap) (thiz : Dlist) (xs : Cells) (i : ℕ)
    → IsRing h thiz.head xs
    → (get (some thiz) (pos i) h ≡ some (data_at (payloads xs) i, h))
      × (gethead (some thiz) h ≡ some (data_at (payloads xs) 0, h))
      × (gettail (some thiz) h ≡ some (last_data (payloads xs) null, h))
unfolding get gethead gettail
get-data_at h thiz [] i r = ground (arith, empty-is_nil h thiz [] r)
get-data_at h thiz ((p, d) ∷ xs) i r =
    let t = whole-Tail r in
    let (n, e, k) = load-Tail h thiz.head thiz.head ((p, d) ∷ xs) t in
    let (m, f, v, w) = load-Tail_next h thiz.head thiz.head p d xs t in
    let (l, g, u) = load-last_or h thiz.head thiz.head p d xs t in
    let (n', c, z) =
      node_of_prev (h.cell thiz.head) (prev-Linked h thiz.head ((p, d) ∷ xs) thiz.head r.links) in
    let at = load-addr_at h thiz.head i thiz.head ((p, d) ∷ xs) t in
    (
      ground
          (arith, empty-is_nil h thiz ((p, d) ∷ xs) r, get_node-addr_at h thiz i ((p, d) ∷ xs) r),
      ground (arith, empty-is_nil h thiz ((p, d) ∷ xs) r),
      ground (arith, empty-is_nil h thiz ((p, d) ∷ xs) r, load-ok h thiz.head r.head_ne c),
    )
