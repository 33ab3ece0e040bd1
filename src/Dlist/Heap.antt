-- ===== src/Dlist/Heap.antt =====
-- zbaselib_list.c: the heap of list nodes. A pointer is a number with 0 for NULL; an access through
-- NULL or to a node that is not allocated is a fault, `none`. What the callbacks of a client do is
-- kept as the list of their calls, the latest first.
use zbaselib.Prelude.{ℕ, ◌+◌, ◌^◌, ltb, Option, none, some, List, ◌∷◌, ◌==◌, if◌then◌else◌}

abbrev pub Ptr : Type 0
Ptr = ℕ

abbrev pub null : Ptr
null = 0

-- `struct _zbaselib_list_node`
pub record Node : Type 0 where
  pub prev : Ptr
  pub next : Ptr
  pub payload : Ptr

-- `destroyed d` is a call `ddfunc(d)`, `visited d` a call `visit(d, ctx)`.
pub data Event : Type 0 where
  destroyed : Ptr → Event
  visited : Ptr → Event

pub record Heap : Type 0 where
  pub cell : Ptr → Option Node
  pub calls : List Event

-- What a function of the library does to the heap, and its result; `none` is a fault.
abbrev pub Run : Type 0 → Type 0
Run R = (before : Heap) → Option (R × Heap)

abbrev pub fault : {R : Type 0} → Run R
fault before = none

abbrev pub pure : {R : Type 0} → R → Run R
pure result before = some (result, before)

-- `++n` of an `int` that is not negative
abbrev pub next_int : ℕ → Run ℕ
next_int n before = if ltb (n + 1) (2 ^ 31) then some (n + 1, before) else none

abbrev resume : {R S : Type 0} → (R → Run S) → Option (R × Heap) → Option (S × Heap)
resume rest none = none
resume rest (some (result, after)) = rest result after

infixl 5 ◌>>=◌ ◌>>◌
abbrev pub ◌>>=◌ : {R S : Type 0} → Run R → (R → Run S) → Run S
◌>>=◌ act rest before = resume rest (act before)

abbrev pub ◌>>◌ : {S : Type 0} → Run (Unit {0}) → Run S → Run S
◌>>◌ act rest before = resume (λ done. rest) (act before)

-- The heap with the node at `p`, if there is one, changed by `f`.
abbrev pub update : (Node → Node) → Option Node → Option Node
update f none = none
update f (some n) = some (f n)

unfoldable pub modify : Ptr → (Node → Node) → Heap → Heap
modify p f h = record h { cell = λ q. if q == p then update f (h.cell q) else h.cell q }

unfoldable pub put_cell : Ptr → Option Node → Heap → Heap
put_cell p c h = record h { cell = λ q. if q == p then c else h.cell q }

abbrev pub load_cell : Option Node → Run Node
load_cell none h = none
load_cell (some n) h = some (n, h)

unfoldable pub load : Ptr → Run Node
load p h = load_cell (if p == null then none else h.cell p) h

unfoldable pub change : Ptr → (Node → Node) → Run (Unit {0})
unfolding load
change p f = do n ← load p; λ h. some (tt, modify p f h)

-- `p->prev = v`, `p->next = v` and `p->data = v`
unfoldable pub set_prev : Ptr → Ptr → Run (Unit {0})
unfolding change
set_prev p v = change p (λ n. record n { prev = v })

unfoldable pub set_next : Ptr → Ptr → Run (Unit {0})
unfolding change
set_next p v = change p (λ n. record n { next = v })

unfoldable pub set_data : Ptr → Ptr → Run (Unit {0})
unfolding change
set_data p v = change p (λ n. record n { payload = v })

-- `calloc` of one node at `fresh`, and `free`
unfoldable pub calloc : Ptr → Run Ptr
calloc fresh h = some (
  fresh,
  if fresh == null
      then h
      else put_cell fresh (some (record { prev = null; next = null; payload = null })) h,
)

unfoldable pub free : Ptr → Run (Unit {0})
free p h = some (tt, put_cell p none h)

unfoldable pub call : Event → Run (Unit {0})
call e h = some (tt, record h { calls = e ∷ h.calls })
