-- ===== src/Dlist/Unlink.antt =====
-- zbaselib_list.c: `zlist_del_node` and `zlist_destroy_node` take a node out of the ring.
use zbaselib.Prelude.{
  ◌≡◌, refl, ◌≢◌, Bool, true, false, none, some, List, [], ◌∷◌, ◌++◌, arith, ◌==◌, if◌then◌else◌,
  Bool-cases, inl, inr,
}
use zbaselib.Dlist.Heap.{
  Ptr, null, Node, Event, destroyed, Heap, ◌>>◌, modify, put_cell, load, set_data, free, call,
}
use zbaselib.Dlist.Ring.{
  Cells, has, Distinct, first_or, last_or, Linked, next_in, prev_in, data_in, load-ok, frame-Linked,
}
use zbaselib.Dlist.Defs.{drop_data, destroy_node}
use zbaselib.Dlist.Link.{set_prev-ok, set_next-ok}
use zbaselib.Dlist.Insert.{has-last_or, has-first_or}
use zbaselib.Dlist.Add.{has-insert}

-- The calls after a node with data `d` is destroyed.
abbrev pub logged : Bool → Ptr → List Event → List Event
logged ddfunc d calls = if d == null then calls else if ddfunc then destroyed d ∷ calls else calls

-- The heap without the node at `p`.
unfoldable pub without : Heap → Ptr → List Event → Heap
without h p calls = record { cell = λ q. if q == p then none else h.cell q; calls = calls }

eq_without :
    (g h : Heap) (p : Ptr) (calls : List Event)
    → ((q : Ptr) → g.cell q ≡ (if q == p then none else h.cell q))
    → g.calls ≡ calls
    → g ≡ without h p calls
unfolding without
eq_without g h p calls ec el = λ i. record { cell = λ q. ec q i; calls = el i }

-- The node after its links are cleared.
abbrev cleared : Heap → Ptr → Heap
cleared h p = modify p (λ n. record n { next = null }) (modify p (λ n. record n { prev = null }) h)

cleared-cell :
    (h : Heap) (p : Ptr) {n : Node}
    → h.cell p ≡ some n
    → (cleared h p).cell p ≡ some (record { prev = null; next = null; payload = n.payload })
unfolding modify
cleared-cell h p e = ground arith

-- The body of `zlist_destroy_node` behind the cleared links.
drop_and_free :
    (h : Heap) (p : Ptr) (ddfunc : Bool) {n : Node}
    → p ≢ null
    → h.cell p ≡ some n
    → (drop_data p ddfunc n.payload >> free p) h
      ≡ some (tt, without h p (logged ddfunc n.payload h.calls))
unfolding drop_data set_data load modify free put_cell call without
drop_and_free h p true {n} ne e = elim (Bool-cases (n.payload == null)) [
  | inl z ↦ ground arith
  | inr z ↦ ground arith
]
drop_and_free h p false {n} ne e = elim (Bool-cases (n.payload == null)) [
  | inl z ↦ ground arith
  | inr z ↦ ground arith
]

without-cleared :
    (h : Heap) (p : Ptr) (calls : List Event) → without (cleared h p) p calls ≡ without h p calls
unfolding without modify
without-cleared h p calls = eq_without _ h p calls (λ q. ground arith) refl

pub modify-cell :
    (h : Heap) (p : Ptr) (f : Node → Node) {n : Node}
    → h.cell p ≡ some n
    → (modify p f h).cell p ≡ some (f n)
unfolding modify
modify-cell h p f e = ground arith

calls-cleared : (h : Heap) (p : Ptr) → (cleared h p).calls ≡ h.calls
unfolding modify
calls-cleared h p = refl

pub destroy_node-ok :
    (h : Heap) (p : Ptr) (ddfunc : Bool) {n : Node}
    → p ≢ null
    → h.cell p ≡ some n
    → destroy_node p ddfunc h ≡ some (tt, without h p (logged ddfunc n.payload h.calls))
unfolding destroy_node
destroy_node-ok h p ddfunc {n} ne e =
    let h' : Heap = modify p (λ n. record n { prev = null }) h in
    ground (
      arith,
      set_prev-ok h p null ne e,
      set_next-ok h' p null ne (modify-cell h p (λ n. record n { prev = null }) e),
      load-ok (cleared h p) p ne (cleared-cell h p e),
      drop_and_free (cleared h p) p ddfunc ne (cleared-cell h p e),
      calls-cleared h p,
      without-cleared h p (logged ddfunc n.payload h.calls),
    )

-- What a removal does to the links: the neighbours of the node are joined.
pub record Removed (h g : Heap) (p prv nxt : Ptr) : Type 0 where
  pub gone : g.cell p ≡ none
  pub next_eq :
      (q : Ptr) → q ≢ p → next_in (g.cell q) ≡ (if q == prv then some nxt else next_in (h.cell q))
  pub prev_eq :
      (q : Ptr) → q ≢ p → prev_in (g.cell q) ≡ (if q == nxt then some prv else prev_in (h.cell q))
  pub data_eq : (q : Ptr) → q ≢ p → data_in (g.cell q) ≡ data_in (h.cell q)

-- Behind the node that goes, the old links now start at `a`.
join_rest :
    (h g : Heap) (p a b : Ptr) (ys : Cells)
    → Removed h g p a (first_or ys b)
    → Linked h p ys b
    → a ≢ p
    → b ≢ p
    → has p ys ≡ false
    → has a ys ≡ false
    → has b ys ≡ false
    → Distinct ys
    → Linked g a ys b
join_rest h g p a b [] i l na nb np ha hb ds =
    (ground (arith, i.next_eq a na), ground (arith, i.prev_eq b nb))
join_rest h g p a b ((q, e) ∷ ys) i l na nb np ha hb ds = (
  ground (arith, i.next_eq a na),
  ground (arith, i.prev_eq q),
  ground (arith, i.data_eq q),
  frame-Linked h g q ys b l.3 (λ r k. ground (arith, i.next_eq r))
      (λ r k. ground (arith, i.prev_eq r)) (λ r k. ground (arith, i.data_eq r)),
)

module _ (h g : Heap) (p d : Ptr) (ys : Cells) (b : Ptr) where
  pub remove-Linked :
      (a : Ptr) (xs : Cells)
      → Removed h g p (last_or xs a) (first_or ys b)
      → Linked h a (xs ++ (p, d) ∷ ys) b
      → a ≢ p
      → b ≢ p
      → has p (xs ++ ys) ≡ false
      → has a (xs ++ ys) ≡ false
      → has b (xs ++ ys) ≡ false
      → Distinct (xs ++ ys)
      → Linked g a (xs ++ ys) b
  remove-Linked a [] i l na nb np ha hb ds = join_rest h g p a b ys i l.3 na nb np ha hb ds
  remove-Linked a ((q, e) ∷ xs) i l na nb np ha hb ds = (
    ground (arith, i.next_eq a na, has-last_or q xs ys),
    ground (arith, i.prev_eq q, has-first_or xs ys b),
    ground (arith, i.data_eq q),
    remove-Linked q xs i l.3 (ground arith) nb (ground arith) (ground arith) (ground arith) ds.1,
  )

pub has-remove :
    (q p d : Ptr) (xs ys : Cells)
    → has q (xs ++ (p, d) ∷ ys) ≡ false
    → (q ≢ p) × (has q (xs ++ ys) ≡ false)
has-remove q p d xs ys e = ground (arith, has-insert q p d xs ys)

pub Distinct-remove :
    (p d : Ptr) (xs ys : Cells)
    → Distinct (xs ++ (p, d) ∷ ys)
    → Distinct (xs ++ ys) × (has p (xs ++ ys) ≡ false)
Distinct-remove p d [] ys ds = (ds.1, ds.0)
Distinct-remove p d ((q, e) ∷ xs) ys ds =
    let (ds', out) = Distinct-remove p d xs ys ds.1 in
    ((ground (arith, has-insert q p d xs ys), ds'), ground (arith, has-insert q p d xs ys))
