-- ===== src/Dlist/Iter.antt =====
-- zbaselib_list.c: the iterator. It visits the elements in order and ends at the head node.
use zbaselib.Prelude.{
  ◌≡◌, refl, ◌≢◌, Bool, true, ◌||◌, Option, none, some, [], ◌∷◌, ◌++◌, arith, ◌==◌, if◌then◌else◌,
  append_assoc, sym,
}
use zbaselib.Dlist.Heap.{Ptr, null, Heap, Run, pure, fault, ◌>>=◌, load}
use zbaselib.Dlist.Ring.{Cells, first_or, IsRing, payloads, load-ok, node_of_prev, prev-Linked}
use zbaselib.Dlist.Defs.{Dlist, empty}
use zbaselib.Dlist.Add.{has-append_middle}
use zbaselib.Dlist.Remove.{node_at}
use zbaselib.Dlist.Access.{data_at}
use zbaselib.Dlist.Walk.{is_nil, empty-is_nil, whole-Tail, load-Tail}

-- `struct _zbaselib_list_iterater`
pub record Iter : Type 0 where
  pub list : Option Dlist
  pub node : Ptr

-- calloc of the iterator is taken to succeed.
unfoldable pub iterater_create : Option Dlist → Option Iter
iterater_create none = none
iterater_create (some list) = some (record { list = some list; node = null })

unfoldable pub get_headnode : Option Dlist → Run Ptr
unfolding empty
get_headnode none = pure null
get_headnode (some thiz) = do
  is_empty ← empty (some thiz)
  if is_empty then pure null else (do n ← load thiz.head; pure n.next)

unfoldable pub get_tailnode : Option Dlist → Run Ptr
unfolding empty
get_tailnode none = pure null
get_tailnode (some thiz) = do
  is_empty ← empty (some thiz)
  if is_empty then pure null else (do n ← load thiz.head; pure n.prev)

-- `zlist_isend`
unfoldable pub at_end : Ptr → Option Dlist → Bool
at_end node none = true
at_end node (some thiz) = (node == null) || (node == thiz.head)

-- The data under the iterator once it stands at `node`, unless that is NULL.
unfoldable pub stand_at : Iter → Ptr → Run (Ptr × Option Iter)
stand_at it node =
    if node == null
    then pure (null, some it)
    else (do n ← load node; pure (n.payload, some (record it { node = node })))

unfoldable pub iterater_first : Option Iter → Run (Ptr × Option Iter)
unfolding get_headnode stand_at
iterater_first none = pure (null, none)
iterater_first (some it) = do node ← get_headnode it.list; stand_at it node

unfoldable pub iterater_next : Option Iter → Run (Ptr × Option Iter)
unfolding at_end
iterater_next none = pure (null, none)
iterater_next (some it) = if at_end it.node it.list then pure (null, some it) else (do
  n ← load it.node
  m ← load n.next
  pure (m.payload, some (record it { node = n.next })))

unfoldable pub iterater_last : Option Iter → Run (Ptr × Option Iter)
unfolding get_tailnode stand_at
iterater_last none = pure (null, none)
iterater_last (some it) = do node ← get_tailnode it.list; stand_at it node

unfoldable pub iterater_isend : Option Iter → Run Bool
unfolding at_end
iterater_isend none = fault
iterater_isend (some it) = pure (at_end it.node it.list)

ne-sym : {a b : Ptr} → a ≢ b → b ≢ a
ne-sym ne = λ e. ne (sym e)

-- The iterator is over the list and has `ys` before it.
pub record IsAt (thiz : Dlist) (it : Iter) (ys : Cells) : Type 0 where
  pub over : it.list ≡ some thiz
  pub place : it.node ≡ first_or ys thiz.head

module _ (h : Heap) (thiz : Dlist) where
  -- `zbaselib_list_iterater_first` on a list that is not empty stands at the first element and returns
  -- its data.
  pub iterater_first-IsAt :
      (it : Iter) (p d : Ptr) (xs : Cells)
      → IsRing h thiz.head ((p, d) ∷ xs)
      → it.list ≡ some thiz
      → (it' : Iter) × (iterater_first (some it) h ≡ some ((d, some it'), h))
        × IsAt thiz it' ((p, d) ∷ xs)
  unfolding iterater_first
  iterater_first-IsAt it p d xs r e =
      let (n, run, k) = load-Tail h thiz.head thiz.head ((p, d) ∷ xs) (whole-Tail r) in
      let (m, c, e1, e2, e3) = node_at h thiz [] xs p d r in
      let ne : p ≢ null = ground (arith, r.nonnull) in
      (
        record it { node = p },
        ground (arith, empty-is_nil h thiz ((p, d) ∷ xs) r, load-ok h p ne c),
        record { over = e; place = refl },
      )

  -- `zbaselib_list_iterater_next` from an element moves to the next one and returns its data; from the
  -- last it moves to the end and returns NULL.
  iterater_next-IsAt :
      (it : Iter) (xs : Cells) (p d : Ptr) (ys : Cells)
      → IsRing h thiz.head (xs ++ (p, d) ∷ ys)
      → IsAt thiz it ((p, d) ∷ ys)
      → (it' : Iter) × (iterater_next (some it) h ≡ some ((data_at (payloads ys) 0, some it'), h))
        × IsAt thiz it' ys
  unfolding iterater_next
  iterater_next-IsAt it xs p d [] r a =
      let (n, c, e1, e2, e3) = node_at h thiz xs [] p d r in
      let ne : p ≢ null = ne-sym (has-append_middle null xs p d [] r.nonnull) in
      let nh : thiz.head ≢ p = has-append_middle thiz.head xs p d [] r.apart in
      let (m, f, k) =
        node_of_prev (h.cell thiz.head)
          (prev-Linked h thiz.head (xs ++ (p, d) ∷ []) thiz.head r.links) in
      (
        record it { node = thiz.head },
        ground (arith, a, load-ok h p ne c, load-ok h thiz.head r.head_ne f, r.head_data),
        record { over = a.over; place = refl },
      )
  iterater_next-IsAt it xs p d ((q, e) ∷ ys) r a =
      let (n, c, e1, e2, e3) = node_at h thiz xs ((q, e) ∷ ys) p d r in
      let ne : p ≢ null = ne-sym (has-append_middle null xs p d ((q, e) ∷ ys) r.nonnull) in
      let nh : thiz.head ≢ p = has-append_middle thiz.head xs p d ((q, e) ∷ ys) r.apart in
      let r' : IsRing h thiz.head ((xs ++ (p, d) ∷ []) ++ (q, e) ∷ ys) =
        rw (append_assoc xs ((p, d) ∷ []) ((q, e) ∷ ys)) r in
      let (m, f, f1, f2, f3) = node_at h thiz (xs ++ (p, d) ∷ []) ys q e r' in
      let nq : q ≢ null = ne-sym (has-append_middle null (xs ++ (p, d) ∷ []) q e ys r'.nonnull) in
      (
        record it { node = q },
        ground (arith, a, load-ok h p ne c, load-ok h q nq f),
        record { over = a.over; place = refl },
      )

  -- `zbaselib_list_iterater_isend` tells exactly whether no element is left.
  pub iterater_isend-is_nil :
      (it : Iter) (xs ys : Cells)
      → IsRing h thiz.head (xs ++ ys)
      → IsAt thiz it ys
      → iterater_isend (some it) h ≡ some (is_nil ys, h)
  unfolding iterater_isend
  iterater_isend-is_nil it xs [] r a = ground (arith, a, r.head_ne)
  iterater_isend-is_nil it xs ((p, d) ∷ ys) r a = ground (
    arith,
    a,
    has-append_middle thiz.head xs p d ys r.apart,
    has-append_middle null xs p d ys r.nonnull,
  )
