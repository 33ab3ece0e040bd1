-- ===== src/Dlist/Ring.antt =====
-- zbaselib_list.c: the shape of a list in the heap. Its nodes are linked into a ring through the
-- head node, in both directions.
use zbaselib.Prelude.{
  ◌≡◌, refl, ◌≢◌, Bool, true, false, ◌||◌, Option, none, some, List, [], ◌∷◌, ◌++◌, arith, ◌==◌,
}
use zbaselib.Dlist.Heap.{Ptr, null, Node, Heap, load}

-- What a list stands for: address and data of each node, in order.
abbrev pub Cells : Type 0
Cells = List (Ptr × Ptr)

abbrev pub payloads : Cells → List Ptr
payloads [] = []
payloads ((p, d) ∷ xs) = d ∷ payloads xs

abbrev pub has : Ptr → Cells → Bool
has q [] = false
has q ((p, d) ∷ xs) = (q == p) || has q xs

abbrev pub Distinct : Cells → Type 0
Distinct [] = Unit {0}
Distinct ((p, d) ∷ xs) = (has p xs ≡ false) × Distinct xs

abbrev pub first_or : Cells → Ptr → Ptr
first_or [] b = b
first_or ((p, d) ∷ xs) b = p

abbrev pub last_or : Cells → Ptr → Ptr
last_or [] a = a
last_or ((p, d) ∷ xs) a = last_or xs p

abbrev pub next_in : Option Node → Option Ptr
next_in none = none
next_in (some n) = some n.next

abbrev pub prev_in : Option Node → Option Ptr
prev_in none = none
prev_in (some n) = some n.prev

abbrev pub data_in : Option Node → Option Ptr
data_in none = none
data_in (some n) = some n.payload

-- From node `a` the links lead through `xs` to node `b`, and back.
abbrev pub Linked : Heap → Ptr → Cells → Ptr → Type 0
Linked h a [] b = (next_in (h.cell a) ≡ some b) × (prev_in (h.cell b) ≡ some a)
Linked h a ((p, d) ∷ xs) b =
    (next_in (h.cell a) ≡ some p)
    × (prev_in (h.cell p) ≡ some a)
    × (data_in (h.cell p) ≡ some d)
    × Linked h p xs b

pub record IsRing (h : Heap) (head : Ptr) (xs : Cells) : Type 0 where
  pub head_ne : head ≢ null
  pub head_data : data_in (h.cell head) ≡ some null
  pub links : Linked h head xs head
  pub apart : has head xs ≡ false
  pub nonnull : has null xs ≡ false
  pub distinct : Distinct xs

-- `g` differs from `h` at most in the ring and where `q` is.
abbrev pub SameOutside : Heap → Heap → Ptr → Cells → Ptr → Type 0
SameOutside h g head xs new =
    (q : Ptr) → q ≢ head → has q xs ≡ false → q ≢ new → g.cell q ≡ h.cell q

pub node_of_next :
    (c : Option Node) {p : Ptr} → next_in c ≡ some p → (n : Node) × (c ≡ some n) × (n.next ≡ p)
node_of_next none e = cc
node_of_next (some n) e = (n, refl, cc)

pub node_of_prev :
    (c : Option Node) {p : Ptr} → prev_in c ≡ some p → (n : Node) × (c ≡ some n) × (n.prev ≡ p)
node_of_prev none e = cc
node_of_prev (some n) e = (n, refl, cc)

pub load-ok :
    (h : Heap) (p : Ptr) {n : Node} → p ≢ null → h.cell p ≡ some n → load p h ≡ some (n, h)
unfolding load
load-ok h p ne e = ground arith

-- The two ends of the links.
pub next-Linked :
    (h : Heap) (a : Ptr) (xs : Cells) (b : Ptr)
    → Linked h a xs b
    → next_in (h.cell a) ≡ some (first_or xs b)
next-Linked h a [] b l = l.0
next-Linked h a ((p, d) ∷ xs) b l = l.0

pub prev-Linked :
    (h : Heap) (a : Ptr) (xs : Cells) (b : Ptr)
    → Linked h a xs b
    → prev_in (h.cell b) ≡ some (last_or xs a)
prev-Linked h a [] b l = l.1
prev-Linked h a ((p, d) ∷ xs) b l = prev-Linked h p xs b l.3

pub Linked-append :
    (h : Heap) (a : Ptr) (xs : Cells) (p d : Ptr) (ys : Cells) (b : Ptr)
    → Linked h a (xs ++ (p, d) ∷ ys) b
    → Linked h a xs p × (data_in (h.cell p) ≡ some d) × Linked h p ys b
Linked-append h a [] p d ys b l = ((l.0, l.1), l.2, l.3)
Linked-append h a ((q, e) ∷ xs) p d ys b l =
    let (l', e', r) = Linked-append h q xs p d ys b l.3 in ((l.0, l.1, l.2, l'), e', r)

pub append-Linked :
    (h : Heap) (a : Ptr) (xs : Cells) (p d : Ptr) (ys : Cells) (b : Ptr)
    → Linked h a xs p
    → data_in (h.cell p) ≡ some d
    → Linked h p ys b
    → Linked h a (xs ++ (p, d) ∷ ys) b
append-Linked h a [] p d ys b l e r = (l.0, l.1, e, r)
append-Linked h a ((q, f) ∷ xs) p d ys b l e r =
    (l.0, l.1, l.2, append-Linked h q xs p d ys b l.3 e r)

-- Links survive a change that spares `next` from `a` on, `prev` up to `b`, and the data.
pub frame-Linked :
    (h g : Heap) (a : Ptr) (xs : Cells) (b : Ptr)
    → Linked h a xs b
    → ((q : Ptr) → (q == a) || has q xs ≡ true → next_in (g.cell q) ≡ next_in (h.cell q))
    → ((q : Ptr) → (q == b) || has q xs ≡ true → prev_in (g.cell q) ≡ prev_in (h.cell q))
    → ((q : Ptr) → has q xs ≡ true → data_in (g.cell q) ≡ data_in (h.cell q))
    → Linked g a xs b
frame-Linked h g a [] b l en ep ed = ground (arith, en a, ep b)
frame-Linked h g a ((p, d) ∷ xs) b l en ep ed = (
  ground (arith, en a),
  ground (arith, ep p),
  ground (arith, ed p),
  frame-Linked h g p xs b l.3 (λ q i. ground (arith, en q)) (λ q i. ground (arith, ep q))
      (λ q i. ground (arith, ed q)),
)
