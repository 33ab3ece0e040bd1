-- ===== src/Dlist/Delete.antt =====
-- zbaselib_list.c: `zbaselib_list_delhead`, `_deltail` and `_del` on a ring.
use zbaselib.Prelude.{
  ℕ, suc, ◌≤◌, ◌<◌, ◌≡◌, refl, ◌≢◌, false, some, [], ◌∷◌, ◌++◌, arith, ap, ◌∙◌, sym, subst, length,
  get_elem?, take, drop, take-append-drop, get_elem?-drop,
}
use zbaselib.Prelude.Int.{pos, negsuc}
use zbaselib.Dlist.Heap.{Ptr, null, Heap}
use zbaselib.Dlist.Ring.{Cells, first_or, last_or, IsRing, load-ok, node_of_prev, prev-Linked}
use zbaselib.Dlist.Defs.{Dlist}
use zbaselib.Dlist.Ops.{delhead, deltail, del}
use zbaselib.Dlist.Add.{has-append_middle}
use zbaselib.Dlist.Unlink.{logged}
use zbaselib.Dlist.Remove.{Deleted, unlinked, unlinked-Deleted, remove_node-ok}
use zbaselib.Dlist.Walk.{is_nil, whole-Tail, load-Tail, empty-is_nil, get_node-addr_at}
use zbaselib.Dlist.Edit.{split_at, addr_at_beyond, is_nil_of_pos}

pub last_or-snoc : (xs : Cells) (p d a : Ptr) → last_or (xs ++ (p, d) ∷ []) a ≡ p
last_or-snoc [] p d a = refl
last_or-snoc ((q, e) ∷ xs) p d a = last_or-snoc xs p d q

pub is_nil-snoc : (xs : Cells) (x : Ptr × Ptr) → is_nil (xs ++ x ∷ []) ≡ false
is_nil-snoc [] x = refl
is_nil-snoc (y ∷ xs) x = refl

-- On an empty list the deletions do nothing, and `del` answers -1.
pub del_empty :
    (h : Heap) (thiz : Dlist) (i : ℕ)
    → IsRing h thiz.head []
    → (delhead (some thiz) h ≡ some (tt, h))
      × (deltail (some thiz) h ≡ some (tt, h))
      × (del (some thiz) (pos i) h ≡ some (negsuc 0, h))
unfolding delhead deltail del
del_empty h thiz i r = ground (arith, empty-is_nil h thiz [] r)

module _ (h : Heap) (thiz : Dlist) where
  -- `zbaselib_list_delhead` on a list that is not empty takes the first element out, frees its node
  -- and hands the data to the destructor, if there is data and a destructor; no other node changes
  -- outside the ring.
  pub delhead-Deleted :
      (p d : Ptr) (xs : Cells)
      → IsRing h thiz.head ((p, d) ∷ xs)
      → (g : Heap) × (delhead (some thiz) h ≡ some (tt, g)) × Deleted h g thiz [] xs p d
  unfolding delhead
  delhead-Deleted p d xs r =
      let (n, e, k) = load-Tail h thiz.head thiz.head ((p, d) ∷ xs) (whole-Tail r) in
      (
        _,
        ground (arith, empty-is_nil h thiz ((p, d) ∷ xs) r, remove_node-ok h thiz [] xs p d r),
        unlinked-Deleted h thiz [] xs p d r,
      )

  -- `zbaselib_list_deltail` on a list that is not empty takes the last element out, frees its node and
  -- hands the data to the destructor, if there is data and a destructor; no other node changes outside
  -- the ring.
  pub deltail-Deleted :
      (xs : Cells) (p d : Ptr)
      → IsRing h thiz.head (xs ++ (p, d) ∷ [])
      → (g : Heap) × (deltail (some thiz) h ≡ some (tt, g)) × Deleted h g thiz xs [] p d
  unfolding deltail
  deltail-Deleted xs p d r =
      let all : Cells = xs ++ (p, d) ∷ [] in
      let (n, e, k) =
        node_of_prev (h.cell thiz.head) (prev-Linked h thiz.head all thiz.head r.links) in
      (
        _,
        ground (
          arith,
          load-ok h thiz.head r.head_ne e,
          last_or-snoc xs p d thiz.head,
          is_nil-snoc xs (p, d),
          empty-is_nil h thiz all r,
          remove_node-ok h thiz xs [] p d r,
        ),
        unlinked-Deleted h thiz xs [] p d r,
      )

  -- `zbaselib_list_del` at an index within the list answers 0, takes the element at that index out,
  -- frees its node and hands its data to the destructor, if there is data and a destructor; no other
  -- node changes outside the ring.
  pub del-Deleted :
      (i : ℕ) (xs : Cells)
      → IsRing h thiz.head xs
      → i < length xs
      → (g : Heap) × (p : Ptr) × (d : Ptr) × (get_elem? xs i ≡ some (p, d))
        × (del (some thiz) (pos i) h ≡ some (pos 0, g))
        × Deleted h g thiz (take i xs) (drop (suc i) xs) p d
  unfolding del
  del-Deleted i xs r inside =
      let (p, d, zs, dr, at, after) = split_at i xs inside in
      let whole : take i xs ++ (p, d) ∷ zs ≡ xs =
        ap (λ z. take i xs ++ z) (sym dr) ∙ take-append-drop i xs in
      let r' : IsRing h thiz.head (take i xs ++ (p, d) ∷ zs) = rw whole r in
      let ne : p ≢ null = ground (arith, r'.nonnull, has-append_middle null (take i xs) p d zs) in
      let g : Heap =
        unlinked h p (last_or (take i xs) thiz.head) (first_or zs thiz.head)
          (logged thiz.ddfunc d h.calls) in
      (
        g,
        p,
        d,
        ground (arith, get_elem?-drop i xs 0),
        ground (
          arith,
          empty-is_nil h thiz xs r,
          is_nil_of_pos xs,
          get_node-addr_at h thiz i xs r,
          remove_node-ok h thiz (take i xs) zs p d r',
        ),
        subst (λ z. Deleted h g thiz (take i xs) z p d) (sym after)
            (unlinked-Deleted h thiz (take i xs) zs p d r'),
      )

  pub del_beyond :
      (i : ℕ) (xs : Cells)
      → IsRing h thiz.head xs
      → length xs ≤ i
      → del (some thiz) (pos i) h ≡ some (negsuc 0, h)
  unfolding del
  del_beyond i xs r over =
      ground (arith, empty-is_nil h thiz xs r, get_node-addr_at h thiz i xs r, addr_at_beyond i xs)
