-- ===== src/Dlist/Add.antt =====
-- zbaselib_list.c: `zbaselib_list_addhead` and `_addtail` put a node at the two ends of the ring.
use zbaselib.Prelude.{
  ◌≡◌, refl, ◌≢◌, false, ◌||◌, none, some, [], ◌∷◌, ◌++◌, arith, ◌==◌, ◌∙◌, append-nil,
}
use zbaselib.Dlist.Heap.{Ptr, null, Node, Heap, load}
use zbaselib.Dlist.Ring.{
  Cells, has, Distinct, first_or, last_or, Linked, IsRing, SameOutside, next_in, prev_in,
  node_of_next, node_of_prev, next-Linked, prev-Linked, load-ok,
}
use zbaselib.Dlist.Defs.{Dlist, add_node, addhead, addtail}
use zbaselib.Dlist.Insert.{has-last_or, has-first_or, insert-Linked}
use zbaselib.Dlist.Link.{created, linked, create_node-ok, add_node-ok, linked-Inserted}

-- What an insertion leaves: the ring with the new node, and nothing else changed.
pub record Added (h g : Heap) (head : Ptr) (xs ys : Cells) (new d : Ptr) : Type 0 where
  pub ring : IsRing g head (xs ++ (new, d) ∷ ys)
  pub same_calls : g.calls ≡ h.calls
  pub same : SameOutside h g head (xs ++ ys) new

-- An address that a ring does not use.
pub record IsFresh (h : Heap) (new : Ptr) : Type 0 where
  pub new_ne : new ≢ null
  pub unused : h.cell new ≡ none

pub has-append_middle :
    (q : Ptr) (xs : Cells) (p d : Ptr) (ys : Cells) → has q (xs ++ (p, d) ∷ ys) ≡ false → q ≢ p
has-append_middle q [] p d ys e = ground arith
has-append_middle q ((r, f) ∷ xs) p d ys e = has-append_middle q xs p d ys (ground arith)

pub has-insert :
    (q new d : Ptr) (xs ys : Cells) → has q (xs ++ (new, d) ∷ ys) ≡ ((q == new) || has q (xs ++ ys))
has-insert q new d [] ys = refl
has-insert q new d ((p, e) ∷ xs) ys = ground (arith, has-insert q new d xs ys)

pub Distinct-insert :
    (new d : Ptr) (xs ys : Cells)
    → Distinct (xs ++ ys)
    → has new (xs ++ ys) ≡ false
    → Distinct (xs ++ (new, d) ∷ ys)
Distinct-insert new d [] ys ds out = (out, ds)
Distinct-insert new d ((p, e) ∷ xs) ys ds out =
    (ground (arith, has-insert p new d xs ys), Distinct-insert new d xs ys ds.1 (ground arith))

pub not-has_of_none :
    (h : Heap) (a : Ptr) (xs : Cells) (b q : Ptr)
    → Linked h a xs b
    → h.cell q ≡ none
    → has q xs ≡ false
not-has_of_none h a [] b q l e = refl
not-has_of_none h a ((p, d) ∷ xs) b q l e = ground (arith, not-has_of_none h p xs b q l.3)

pub middle-Linked :
    (h : Heap) (a : Ptr) (xs ys : Cells) (b : Ptr)
    → Linked h a (xs ++ ys) b
    → (next_in (h.cell (last_or xs a)) ≡ some (first_or ys b))
      × (prev_in (h.cell (first_or ys b)) ≡ some (last_or xs a))
middle-Linked h a [] [] b l = l
middle-Linked h a [] ((p, d) ∷ ys) b l = (l.0, l.1)
middle-Linked h a ((p, d) ∷ xs) ys b l = middle-Linked h p xs ys b l.3

cell-created :
    (h : Heap) (new d : Ptr)
    → ((created h new d).cell new ≡ some (record { prev = null; next = null; payload = d }))
      × ((q : Ptr) → q ≢ new → (created h new d).cell q ≡ h.cell q)
unfolding created
cell-created h new d = (ground arith, λ q ne. ground arith)

module _ (h : Heap) (head : Ptr) (xs ys : Cells) (new d : Ptr) (r : IsRing h head (xs ++ ys))
    (fresh : IsFresh h new) where
  fresh_out : (has new (xs ++ ys) ≡ false) × (new ≢ head)
  fresh_out =
      (not-has_of_none h head (xs ++ ys) head new r.links fresh.unused, ground (arith, r, fresh))

  neighbours_ne :
      (last_or xs head ≢ null)
      × (last_or xs head ≢ new)
      × (first_or ys head ≢ null)
      × (first_or ys head ≢ new)
  neighbours_ne = (
    ground (arith, r, has-last_or head xs ys),
    ground (arith, r, fresh_out, has-last_or head xs ys),
    ground (arith, r, has-first_or xs ys head),
    ground (arith, r, fresh_out, has-first_or xs ys head),
  )

  pub inserted-Added :
      Added h (linked (created h new d) new (last_or xs head) (first_or ys head)) head xs ys new d
  unfolding linked created
  inserted-Added =
      let (prv, e1, e2) = node_of_next _ (middle-Linked h head xs ys head r.links).0 in
      let (nxt, f1, f2) = node_of_prev _ (middle-Linked h head xs ys head r.links).1 in
      let i =
        linked-Inserted h new (last_or xs head) (first_or ys head) d fresh.new_ne neighbours_ne.1
          neighbours_ne.3 e1 f1 in
      record {
        ring = record {
          head_ne = r.head_ne;
          head_data = ground (arith, r, i.data_eq head, fresh_out);
          links =
              insert-Linked h _ new d ys head head xs i r.links (ground (arith, fresh_out))
                (ground (arith, fresh_out)) fresh_out.0 r.apart r.apart r.distinct;
          apart = ground (arith, r, fresh_out, has-insert head new d xs ys);
          nonnull = ground (arith, r, fresh, has-insert null new d xs ys);
          distinct = Distinct-insert new d xs ys r.distinct fresh_out.0;
        };
        same_calls = refl;
        same = λ q qh qx qn. ground (arith, has-last_or head xs ys, has-first_or xs ys head);
      }

  -- The assignments of `zlist_add_node` in the heap with the new node.
  pub add_node-created :
      add_node new (last_or xs head) (first_or ys head) (created h new d)
      ≡ some (tt, linked (created h new d) new (last_or xs head) (first_or ys head))
  add_node-created =
      let (prv, e1, e2) = node_of_next _ (middle-Linked h head xs ys head r.links).0 in
      let (nxt, f1, f2) = node_of_prev _ (middle-Linked h head xs ys head r.links).1 in
      add_node-ok (created h new d) new (last_or xs head) (first_or ys head) fresh.new_ne
        neighbours_ne.0 neighbours_ne.2 (cell-created h new d).0
        ((cell-created h new d).1 _ neighbours_ne.1 ∙ e1)
        ((cell-created h new d).1 _ neighbours_ne.3 ∙ f1)

  pub load-created :
      (p : Ptr) {n : Node}
      → p ≢ null
      → h.cell p ≡ some n
      → load p (created h new d) ≡ some (n, created h new d)
  load-created p ne e =
      load-ok (created h new d) p ne
        ((cell-created h new d).1 p (λ q. ground (arith, fresh.unused)) ∙ e)

-- `zbaselib_list_addhead` with a fresh node puts the data in front of the ring; every other node of
-- the heap is as before, and no callback runs.
pub addhead-Added :
    (h : Heap) (thiz : Dlist) (xs : Cells) (new d : Ptr)
    → IsRing h thiz.head xs
    → IsFresh h new
    → (g : Heap) × (addhead new (some thiz) d h ≡ some (tt, g)) × Added h g thiz.head [] xs new d
unfolding addhead
addhead-Added h thiz xs new d r fresh =
    let (n, e, e') =
      node_of_next (h.cell thiz.head) (next-Linked h thiz.head xs thiz.head r.links) in
    (
      _,
      ground (
        arith,
        create_node-ok h new d fresh.new_ne,
        load-created h thiz.head [] xs new d r fresh thiz.head r.head_ne e,
        add_node-created h thiz.head [] xs new d r fresh,
      ),
      inserted-Added h thiz.head [] xs new d r fresh,
    )

-- `zbaselib_list_addtail` with a fresh node puts the data at the end of the ring; every other node of
-- the heap is as before, and no callback runs.
pub addtail-Added :
    (h : Heap) (thiz : Dlist) (xs : Cells) (new d : Ptr)
    → IsRing h thiz.head xs
    → IsFresh h new
    → (g : Heap) × (addtail new (some thiz) d h ≡ some (tt, g)) × Added h g thiz.head xs [] new d
unfolding addtail
addtail-Added h thiz xs new d r fresh =
    let (n, e, e') =
      node_of_prev (h.cell thiz.head) (prev-Linked h thiz.head xs thiz.head r.links) in
    let r' : IsRing h thiz.head (xs ++ []) = rw append-nil r in
    (
      _,
      ground (
        arith,
        create_node-ok h new d fresh.new_ne,
        load-created h thiz.head xs [] new d r' fresh thiz.head r.head_ne e,
        add_node-created h thiz.head xs [] new d r' fresh,
      ),
      inserted-Added h thiz.head xs [] new d r' fresh,
    )
