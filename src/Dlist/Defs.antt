-- ===== src/Dlist/Defs.antt =====
-- zbaselib_list.c: the functions of the doubly linked list with a head node. A loop takes fuel.
use zbaselib.Prelude.{ℕ, zero, suc, Bool, true, Option, none, some, ◌==◌, not, ◌&&◌, if◌then◌else◌}
use zbaselib.Prelude.Int.{ℤ, pos, negsuc}
use zbaselib.Dlist.Heap.{
  Ptr, null, destroyed, Run, pure, fault, ◌>>=◌, ◌>>◌, load, next_int, set_prev, set_next, set_data,
  calloc, free, call,
}

-- `struct _zbaselib_list`; `ddfunc` tells whether the destructor is given.
pub record Dlist : Type 0 where
  pub head : Ptr
  pub ddfunc : Bool

abbrev pub nothing : Run (Unit {0})
nothing = pure tt

unfoldable pub create_node : (fresh : Ptr) → Ptr → Run Ptr
create_node fresh payload = do node ← calloc fresh; set_data node payload; pure node

-- A call through a null function pointer is a fault.
unfoldable pub call_ddfunc : Bool → Ptr → Run (Unit {0})
call_ddfunc given payload = if given then call (destroyed payload) else fault

unfoldable pub drop_data : Ptr → Bool → Ptr → Run (Unit {0})
drop_data node ddfunc payload =
    if payload == null
    then nothing
    else (do (if ddfunc then call (destroyed payload) else nothing); set_data node null)

unfoldable pub destroy_node : Ptr → Bool → Run (Unit {0})
unfolding drop_data
destroy_node node ddfunc = if node == null then nothing else (do
  set_prev node null
  set_next node null
  n ← load node
  drop_data node ddfunc n.payload
  free node)

unfoldable pub add_node : (new_node prev next : Ptr) → Run (Unit {0})
add_node new_node prev next =
    if not (new_node == null) && (not (prev == null) && not (next == null))
    then (do
      set_next prev new_node
      set_prev new_node prev
      set_next new_node next
      set_prev next new_node)
    else nothing

unfoldable pub del_node : (prev next : Ptr) → Run (Unit {0})
del_node prev next =
    if not (prev == null) && not (next == null)
    then (do set_next prev next; set_prev next prev)
    else nothing

-- The walk of `zlist_get_node`: `left` is `index + 1`, the steps that the test on the index allows.
unfoldable pub get_node_loop : (head : Ptr) → (left : ℕ) → (cursor : Ptr) → Run Ptr
get_node_loop head zero cursor = do n ← load cursor; pure cursor
get_node_loop head (suc left) cursor = do
  n ← load cursor
  if n.next == head then pure null else get_node_loop head left n.next

unfoldable pub get_node : Option Dlist → ℤ → Run Ptr
unfolding get_node_loop
get_node (some thiz) (pos index) = do
  n ← load thiz.head
  if n.next == thiz.head then pure null else get_node_loop thiz.head (suc index) thiz.head
get_node _ index = pure null

unfoldable pub empty : Option Dlist → Run Bool
empty none = pure true
empty (some thiz) = do n ← load thiz.head; pure (n.next == thiz.head)

unfoldable pub size_loop : ℕ → (head cursor : Ptr) → ℕ → Run ℕ
size_loop zero head cursor size = fault
size_loop (suc fuel) head cursor size = do
  n ← load cursor
  if n.next == head then pure size else (do more ← next_int size; size_loop fuel head n.next more)

unfoldable pub size : ℕ → Option Dlist → Run ℤ
unfolding size_loop
size fuel none = pure (negsuc 0)
size fuel (some thiz) = do n ← size_loop fuel thiz.head thiz.head 0; pure (pos n)

-- `fresh` is what calloc returns for the head node; the handle itself is taken to be allocated.
unfoldable pub create : (fresh : Ptr) → Bool → Run Dlist
unfolding create_node
create fresh ddfunc = do
  head ← create_node fresh null
  set_next head head
  set_prev head head
  pure (record { head = head; ddfunc = ddfunc })

module _ (fresh : Ptr) where
  unfoldable pub addhead : Option Dlist → Ptr → Run (Unit {0})
  unfolding create_node add_node
  addhead none payload = nothing
  addhead (some thiz) payload = do
    node ← create_node fresh payload
    n ← load thiz.head
    add_node node thiz.head n.next

  unfoldable pub addtail : Option Dlist → Ptr → Run (Unit {0})
  unfolding create_node add_node
  addtail none payload = nothing
  addtail (some thiz) payload = do
    node ← create_node fresh payload
    n ← load thiz.head
    add_node node n.prev thiz.head

  -- The last part of `zbaselib_list_add`: before the node at the index, if there is one.
  unfoldable pub add_before : Dlist → Ptr → Ptr → Run ℤ
  unfolding create_node add_node
  add_before thiz payload node = if node == null then pure (negsuc 0) else (do
    new_node ← create_node fresh payload
    n ← load node
    add_node new_node n.prev node
    pure (pos 0))

  unfoldable pub add : ℕ → Option Dlist → Ptr → ℤ → Run ℤ
  unfolding addhead addtail add_before get_node size empty
  add fuel (some thiz) payload (pos index) = do
    is_empty ← empty (some thiz)
    if is_empty && (index == 0) then (do addhead (some thiz) payload; pure (pos 0)) else (do
      n ← size_loop fuel thiz.head thiz.head 0
      if index == n
          then (do addtail (some thiz) payload; pure (pos 0))
          else (do node ← get_node (some thiz) (pos index); add_before thiz payload node))
  add fuel _ payload index = pure (negsuc 0)
