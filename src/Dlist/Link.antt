-- ===== src/Dlist/Link.antt =====
-- zbaselib_list.c: `zlist_create_node` and `zlist_add_node` put a new node between two neighbours,
-- and `zlist_del_node` with `zlist_destroy_node` takes one out.
use zbaselib.Prelude.{◌≡◌, ◌≢◌, some, arith}
use zbaselib.Dlist.Heap.{
  Ptr, null, Node, Heap, modify, put_cell, load, set_next, set_prev, set_data, calloc,
}
use zbaselib.Dlist.Ring.{load-ok}
use zbaselib.Dlist.Defs.{create_node, add_node}
use zbaselib.Dlist.Insert.{Inserted}

module _ (h : Heap) (p v : Ptr) {n : Node} (ne : p ≢ null) (here : h.cell p ≡ some n) where
  pub set_next-ok : set_next p v h ≡ some (tt, modify p (λ n. record n { next = v }) h)
  unfolding set_next
  set_next-ok = ground (arith, load-ok h p ne here)

  pub set_prev-ok : set_prev p v h ≡ some (tt, modify p (λ n. record n { prev = v }) h)
  unfolding set_prev
  set_prev-ok = ground (arith, load-ok h p ne here)

  pub set_data-ok : set_data p v h ≡ some (tt, modify p (λ n. record n { payload = v }) h)
  unfolding set_data
  set_data-ok = ground (arith, load-ok h p ne here)

-- The heap with a fresh node.
unfoldable pub created : Heap → Ptr → Ptr → Heap
unfolding put_cell modify
created h fresh d =
    modify fresh (λ n. record n { payload = d })
      (put_cell fresh (some (record { prev = null; next = null; payload = null })) h)

pub create_node-ok :
    (h : Heap) (fresh d : Ptr)
    → fresh ≢ null
    → create_node fresh d h ≡ some (fresh, created h fresh d)
unfolding create_node created calloc set_data load
create_node-ok h fresh d ne = ground arith

-- The heap after the four assignments of `zlist_add_node`.
unfoldable pub linked : Heap → (new prv nxt : Ptr) → Heap
unfolding modify
linked h new prv nxt =
    modify nxt (λ n. record n { prev = new })
      (modify new (λ n. record n { next = nxt })
        (modify new (λ n. record n { prev = prv }) (modify prv (λ n. record n { next = new }) h)))

pub add_node-ok :
    (h : Heap) (new prv nxt : Ptr) {a b c : Node}
    → new ≢ null
    → prv ≢ null
    → nxt ≢ null
    → h.cell new ≡ some a
    → h.cell prv ≡ some b
    → h.cell nxt ≡ some c
    → add_node new prv nxt h ≡ some (tt, linked h new prv nxt)
unfolding add_node linked set_next set_prev load
add_node-ok h new prv nxt nn np nx ea eb ec = ground arith

pub linked-Inserted :
    (h : Heap) (new prv nxt d : Ptr) {b c : Node}
    → new ≢ null
    → prv ≢ new
    → nxt ≢ new
    → h.cell prv ≡ some b
    → h.cell nxt ≡ some c
    → Inserted h (linked (created h new d) new prv nxt) new prv nxt d
unfolding linked created
linked-Inserted h new prv nxt d nn np nx eb ec = record {
  next_eq = λ q. ground arith;
  prev_eq = λ q. ground arith;
  data_eq = λ q. ground arith;
}
