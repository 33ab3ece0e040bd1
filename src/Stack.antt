-- ===== src/Stack.antt =====
-- zbaselib_stack.c: a stack is a handle on a doubly linked list, with its top at the head.
use zbaselib.Prelude.{ℕ, zero, Bool, true, false, Option, none, some, if◌then◌else◌}
use zbaselib.Prelude.Int.{ℤ, pos, negsuc}
use zbaselib.Dlist.Heap.{Ptr, null, Event, destroyed, Heap, Run, pure, ◌>>=◌, ◌>>◌}
use zbaselib.Dlist.Defs.{Dlist, nothing, call_ddfunc}
use zbaselib.Dlist.Defs
use zbaselib.Dlist.Ops
use zbaselib.Dlist.Iter.{Iter, iterater_create}
pub mod Lifo
mod Tests

-- `struct _zbaselib_stack`
pub record Stack : Type 0 where
  pub list : Option Dlist

-- `thiz_ok` tells whether malloc of the handle succeeds, and `fresh` is the new head node.
unfoldable pub create : Bool → (fresh : Ptr) → Bool → Run (Option Stack)
create thiz_ok fresh ddfunc =
    if thiz_ok
    then (do list ← Defs.create fresh ddfunc; pure (some (record { list = some list })))
    else pure none

-- The walks over the list take fuel.
unfoldable pub destroy_list : ℕ → Option Dlist → Run (Unit {0})
destroy_list fuel none = nothing
destroy_list fuel (some list) = do rest ← Ops.destroy fuel (some list); nothing

unfoldable pub destroy : ℕ → Option Stack → Run (Unit {0})
unfolding destroy_list
destroy fuel none = nothing
destroy fuel (some thiz) = destroy_list fuel thiz.list

-- `ddfunc` tells whether a destructor is given: it is first called on each data, then the list is destroyed
-- with its own.
unfoldable pub destroy_list1 : ℕ → (ddfunc : Bool) → Option Dlist → Run (Unit {0})
destroy_list1 fuel ddfunc none = nothing
destroy_list1 fuel ddfunc (some list) = do
  status ← Ops.foreach (call_ddfunc ddfunc) fuel (some list)
  rest ← Ops.destroy fuel (some list)
  nothing

unfoldable pub destroy1 : ℕ → (ddfunc : Bool) → Option Stack → Run (Unit {0})
unfolding destroy_list1
destroy1 fuel ddfunc none = nothing
destroy1 fuel ddfunc (some thiz) = destroy_list1 fuel ddfunc thiz.list

-- What a call does to the list of a stack, or gives where the stack or its list is NULL.
unfoldable pub on_list : {A : Type 0} → Option Stack → A → (Dlist → Run A) → Run A
on_list none missing act = pure missing
on_list (some thiz) missing act = elim thiz.list [ none ↦ pure missing | some list ↦ act list ]

unfoldable pub push : (fresh : Ptr) → Option Stack → Ptr → Run ℤ
unfolding on_list
push fresh thiz payload =
    on_list thiz (negsuc 0) λ list. do Defs.addhead fresh (some list) payload; pure (pos 0)

unfoldable pub pop : Option Stack → Run ℤ
unfolding on_list
pop thiz = on_list thiz (negsuc 0) λ list. do Ops.delhead (some list); pure (pos 0)

unfoldable pub pop1 : Option Stack → Run Ptr
unfolding on_list
pop1 thiz =
    on_list thiz null
      λ list. do payload ← Ops.gethead (some list); Ops.delhead (some list); pure payload

unfoldable pub peek : Option Stack → Run Ptr
unfolding on_list
peek thiz = on_list thiz null λ list. Ops.gethead (some list)

unfoldable pub size : ℕ → Option Stack → Run ℤ
unfolding on_list
size fuel thiz = on_list thiz (pos 0) λ list. Defs.size fuel (some list)

unfoldable pub iterater : Option Stack → Run (Option Iter)
unfolding on_list
iterater thiz = on_list thiz none λ list. pure (iterater_create (some list))
