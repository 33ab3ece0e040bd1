-- ===== src/Dlist/Remove.antt =====
-- zbaselib_list.c: taking one node out of a ring, unlinked and destroyed.
use native.Mathlib.Decide.{ℕ_discrete}
use zbaselib.Prelude.{◌≡◌, refl, ◌≢◌, false, none, some, List, [], ◌∷◌, ◌++◌, arith}
use zbaselib.Dlist.Heap.{Ptr, null, Node, Event, Heap, modify}
use zbaselib.Dlist.Ring.{
  Cells, has, Distinct, first_or, last_or, Linked, IsRing, SameOutside, next_in, prev_in,
  node_of_next, node_of_prev, load-ok, Linked-append, next-Linked, prev-Linked,
}
use zbaselib.Dlist.Defs.{Dlist, del_node}
use zbaselib.Dlist.Ops.{remove_node}
use zbaselib.Dlist.Link.{set_prev-ok, set_next-ok}
use zbaselib.Dlist.Insert.{has-last_or, has-first_or}
use zbaselib.Dlist.Unlink.{
  logged, without, destroy_node-ok, Removed, remove-Linked, has-remove, Distinct-remove,
  modify-cell,
}

-- The heap after `node` between `prv` and `nxt` is unlinked and destroyed.
unfoldable pub unlinked : Heap → (p prv nxt : Ptr) → List Event → Heap
unfolding modify without
unlinked h p prv nxt calls =
    without
      (modify nxt (λ n. record n { prev = prv }) (modify prv (λ n. record n { next = nxt }) h)) p
      calls

-- What a removal leaves: the ring without the node, which is freed, and nothing else changed but
-- that the data went through the destructor.
pub record Deleted (h g : Heap) (thiz : Dlist) (xs ys : Cells) (p d : Ptr) : Type 0 where
  pub ring : IsRing g thiz.head (xs ++ ys)
  pub freed : g.cell p ≡ none
  pub calls_eq : g.calls ≡ logged thiz.ddfunc d h.calls
  pub same : SameOutside h g thiz.head (xs ++ ys) p

last-next :
    (h : Heap) (a : Ptr) (xs : Cells) (b : Ptr)
    → Linked h a xs b
    → next_in (h.cell (last_or xs a)) ≡ some b
last-next h a [] b l = l.0
last-next h a ((p, d) ∷ xs) b l = last-next h p xs b l.3

first-prev :
    (h : Heap) (a : Ptr) (xs : Cells) (b : Ptr)
    → Linked h a xs b
    → prev_in (h.cell (first_or xs b)) ≡ some a
first-prev h a [] b l = l.1
first-prev h a ((p, d) ∷ xs) b l = l.1

module _ (h : Heap) (thiz : Dlist) (xs ys : Cells) (p d : Ptr)
    (r : IsRing h thiz.head (xs ++ (p, d) ∷ ys)) where
  abbrev head : Ptr
  head = thiz.head

  p_out :
      (head ≢ p)
      × (p ≢ null)
      × (has p (xs ++ ys) ≡ false)
      × (has head (xs ++ ys) ≡ false)
      × (has null (xs ++ ys) ≡ false)
      × Distinct (xs ++ ys)
  p_out =
      let (ds, np) = Distinct-remove p d xs ys r.distinct in
      let (h1, h2) = has-remove head p d xs ys r.apart in
      let (n1, n2) = has-remove null p d xs ys r.nonnull in (h1, ground arith, np, h2, n2, ds)

  neighbours :
      (last_or xs head ≢ null)
      × (last_or xs head ≢ p)
      × (first_or ys head ≢ null)
      × (first_or ys head ≢ p)
  neighbours = (
    ground (arith, r.head_ne, p_out, has-last_or head xs ys),
    ground (arith, p_out, has-last_or head xs ys),
    ground (arith, r.head_ne, p_out, has-first_or xs ys head),
    ground (arith, p_out, has-first_or xs ys head),
  )

  pub node_at :
      (n : Node) × (h.cell p ≡ some n)
      × (n.prev ≡ last_or xs head)
      × (n.next ≡ first_or ys head)
      × (n.payload ≡ d)
  node_at =
      let (before, e, after) = Linked-append h head xs p d ys head r.links in
      let (n, c, k) = node_of_prev (h.cell p) (prev-Linked h head xs p before) in
      (n, c, k, ground (arith, next-Linked h p ys head after), ground arith)

  joined : Heap
  unfolding modify
  joined =
      modify (first_or ys head) (λ n. record n { prev = last_or xs head })
        (modify (last_or xs head) (λ n. record n { next = first_or ys head }) h)

  -- The two neighbours are nodes of the ring.
  allocated :
      (a : Node) × (b : Node) × (h.cell (last_or xs head) ≡ some a)
      × (h.cell (first_or ys head) ≡ some b)
  allocated =
      let (before, e, after) = Linked-append h head xs p d ys head r.links in
      let (a, c, k) = node_of_next _ (last-next h head xs p before) in
      let (b, f, m) = node_of_prev _ (first-prev h p ys head after) in (a, b, c, f)

  unlinked-Removed :
      (calls : List Event)
      → Removed h
          (unlinked h p (last_or xs head) (first_or ys head) calls)
          p
          (last_or xs head)
          (first_or ys head)
  unfolding unlinked
  unlinked-Removed calls =
      let (a, b, c, f) = allocated in
      record {
        gone = ground arith;
        next_eq = λ q ne. ground arith;
        prev_eq = λ q ne. ground arith;
        data_eq = λ q ne. ground arith;
      }

  joined-cell : (q : Ptr) → q ≢ last_or xs head → q ≢ first_or ys head → joined.cell q ≡ h.cell q
  unfolding joined
  joined-cell q a b = ground arith

  pub unlinked-Deleted :
      Deleted h
        (unlinked h p (last_or xs head) (first_or ys head) (logged thiz.ddfunc d h.calls))
        thiz
        xs
        ys
        p
        d
  unfolding unlinked
  unlinked-Deleted =
      let i = unlinked-Removed (logged thiz.ddfunc d h.calls) in
      let out = p_out in
      record {
        ring = record {
          head_ne = r.head_ne;
          head_data = ground (arith, i.data_eq head out.0, r.head_data);
          links =
              remove-Linked h _ p d ys head head xs i r.links out.0 out.0 out.2 out.3 out.3 out.5;
          apart = out.3;
          nonnull = out.4;
          distinct = out.5;
        };
        freed = i.gone;
        calls_eq = refl;
        same = λ q qh qx qn. ground (arith, has-last_or head xs ys, has-first_or xs ys head);
      }

  del_node-ok : del_node (last_or xs head) (first_or ys head) h ≡ some (tt, joined)
  unfolding del_node joined modify
  del_node-ok =
      let (a, b, c, f) = allocated in
      let h' : Heap = modify (last_or xs head) (λ n. record n { next = first_or ys head }) h in
      let ne = neighbours in
      elim (ℕ_discrete (first_or ys head) (last_or xs head)) [
        | yes e ↦ ground (
          arith,
          set_next-ok h (last_or xs head) (first_or ys head) ne.0 c,
          set_prev-ok h' (last_or xs head) (last_or xs head) ne.0
              (modify-cell h (last_or xs head) _ c),
        )
        | no e ↦
            let here : h'.cell (first_or ys head) ≡ some b = ground arith in
            ground (
              arith,
              set_next-ok h (last_or xs head) (first_or ys head) ne.0 c,
              set_prev-ok h' (first_or ys head) (last_or xs head) ne.2 here,
            )
      ]

  pub remove_node-ok :
      remove_node thiz p h
      ≡ some (tt, unlinked h p (last_or xs head) (first_or ys head) (logged thiz.ddfunc d h.calls))
  unfolding remove_node unlinked joined
  remove_node-ok =
      let (n, c, e1, e2, e3) = node_at in
      let out = p_out in
      let ne = neighbours in
      let here : joined.cell p ≡ some n = ground (arith, joined-cell p) in
      ground
        (arith, load-ok h p out.1 c, del_node-ok, destroy_node-ok joined p thiz.ddfunc out.1 here)
