-- ===== src/Dlist/Insert.antt =====
-- zbaselib_list.c: a new node between two neighbours of a ring.
use zbaselib.Prelude.{◌≡◌, ◌≢◌, true, false, ◌||◌, some, [], ◌∷◌, ◌++◌, arith, ◌==◌, if◌then◌else◌}
use zbaselib.Dlist.Heap.{Ptr, Heap}
use zbaselib.Dlist.Ring.{
  Cells, has, Distinct, first_or, last_or, next_in, prev_in, data_in, Linked, frame-Linked,
}

-- `g` is `h` with the new node between `prv` and `nxt`.
pub record Inserted (h g : Heap) (new prv nxt d : Ptr) : Type 0 where
  pub next_eq :
      (q : Ptr)
      → next_in (g.cell q)
        ≡ (if q == new then some nxt else if q == prv then some new else next_in (h.cell q))
  pub prev_eq :
      (q : Ptr)
      → prev_in (g.cell q)
        ≡ (if q == new then some prv else if q == nxt then some new else prev_in (h.cell q))
  pub data_eq : (q : Ptr) → data_in (g.cell q) ≡ (if q == new then some d else data_in (h.cell q))

pub has-last_or :
    (p : Ptr) (xs ys : Cells) → (last_or xs p == p) || has (last_or xs p) (xs ++ ys) ≡ true
has-last_or p [] ys = ground arith
has-last_or p ((q, e) ∷ xs) ys = ground (arith, has-last_or q xs ys)

pub has-first_or :
    (xs ys : Cells) (b : Ptr) → (first_or ys b == b) || has (first_or ys b) (xs ++ ys) ≡ true
has-first_or [] [] b = ground arith
has-first_or [] (y ∷ ys) b = ground arith
has-first_or (x ∷ xs) ys b = ground (arith, has-first_or xs ys b)

module _ (h g : Heap) (new d : Ptr) (ys : Cells) (b : Ptr) where
  -- The base case: behind the new node the old links go on.
  insert-Linked_rest :
      (a : Ptr)
      → Inserted h g new a (first_or ys b) d
      → Linked h a ys b
      → b ≢ new
      → has new ys ≡ false
      → has a ys ≡ false
      → has b ys ≡ false
      → Distinct ys
      → Linked g new ys b
  insert-Linked_rest a i l nb nn ha hb ds = rest ys i.next_eq i.prev_eq i.data_eq l nn ha hb ds
    where
      rest :
          (zs : Cells)
          → ((q : Ptr)
              → next_in (g.cell q) ≡ (
                  if q == new
                  then some (first_or zs b)
                  else if q == a
                  then some new
                  else next_in (h.cell q)))
          → ((q : Ptr)
              → prev_in (g.cell q) ≡ (
                  if q == new
                  then some a
                  else if q == first_or zs b
                  then some new
                  else prev_in (h.cell q)))
          → ((q : Ptr) → data_in (g.cell q) ≡ (if q == new then some d else data_in (h.cell q)))
          → Linked h a zs b
          → has new zs ≡ false
          → has a zs ≡ false
          → has b zs ≡ false
          → Distinct zs
          → Linked g new zs b
      rest [] en ep ed l nn ha hb ds = ground (arith, en new, ep b)
      rest ((p, e) ∷ zs) en ep ed l nn ha hb ds = (
        ground (arith, en new),
        ground (arith, ep p),
        ground (arith, ed p),
        frame-Linked h g p zs b l.3 (λ q k. ground (arith, en q)) (λ q k. ground (arith, ep q))
            (λ q k. ground (arith, ed q)),
      )

  pub insert-Linked :
      (a : Ptr) (xs : Cells)
      → Inserted h g new (last_or xs a) (first_or ys b) d
      → Linked h a (xs ++ ys) b
      → a ≢ new
      → b ≢ new
      → has new (xs ++ ys) ≡ false
      → has a (xs ++ ys) ≡ false
      → has b (xs ++ ys) ≡ false
      → Distinct (xs ++ ys)
      → Linked g a (xs ++ (new, d) ∷ ys) b
  insert-Linked a [] i l na nb nn ha hb ds = (
    ground (arith, i.next_eq a),
    ground (arith, i.prev_eq new),
    ground (arith, i.data_eq new),
    insert-Linked_rest a i l nb nn ha hb ds,
  )
  insert-Linked a ((p, e) ∷ xs) i l na nb nn ha hb ds = (
    ground (arith, i.next_eq a, has-last_or p xs ys),
    ground (arith, i.prev_eq p, has-first_or xs ys b),
    ground (arith, i.data_eq p),
    insert-Linked p xs i l.3 (ground arith) nb (ground arith) (ground arith) (ground arith) ds.1,
  )
