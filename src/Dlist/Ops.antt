-- ===== src/Dlist/Ops.antt =====
-- zbaselib_list.c: deletion, access, the walks over the whole list, and the iterator.
use zbaselib.Prelude.{ℕ, zero, suc, Bool, Option, none, some, ◌==◌, if◌then◌else◌}
use zbaselib.Prelude.Int.{ℤ, pos, negsuc}
use zbaselib.Dlist.Heap.{Ptr, null, Run, pure, fault, ◌>>=◌, ◌>>◌, load, next_int, set_data}
use zbaselib.Dlist.Defs.{Dlist, nothing, destroy_node, del_node, get_node, empty, call_ddfunc}

-- A node is unlinked from its neighbours and destroyed.
unfoldable pub remove_node : Dlist → Ptr → Run (Unit {0})
unfolding del_node destroy_node
remove_node thiz node = do n ← load node; del_node n.prev n.next; destroy_node node thiz.ddfunc

unfoldable pub delhead : Option Dlist → Run (Unit {0})
unfolding remove_node empty
delhead none = nothing
delhead (some thiz) = do
  is_empty ← empty (some thiz)
  if is_empty then nothing else (do n ← load thiz.head; remove_node thiz n.next)

unfoldable pub deltail : Option Dlist → Run (Unit {0})
unfolding remove_node empty
deltail none = nothing
deltail (some thiz) = do
  is_empty ← empty (some thiz)
  if is_empty then nothing else (do n ← load thiz.head; remove_node thiz n.prev)

unfoldable pub del : Option Dlist → ℤ → Run ℤ
unfolding remove_node empty get_node
del (some thiz) (pos index) = do
  is_empty ← empty (some thiz)
  if is_empty then pure (negsuc 0) else (do
    node ← get_node (some thiz) (pos index)
    if node == null then pure (negsuc 0) else (do remove_node thiz node; pure (pos 0)))
del _ index = pure (negsuc 0)

-- `cmp data ctx`, at the context of the call
module _ (cmp : Ptr → Bool) where
  unfoldable pub del_cond_loop : ℕ → Dlist → (cursor : Ptr) → ℕ → Run ℕ
  unfolding remove_node
  del_cond_loop zero thiz cursor del_num = fault
  del_cond_loop (suc fuel) thiz cursor del_num = do
    n ← load cursor
    if n.next == thiz.head then pure del_num else (do
      m ← load n.next
      if cmp m.payload
          then (do
            remove_node thiz n.next
            more ← next_int del_num
            del_cond_loop fuel thiz m.prev more)
          else del_cond_loop fuel thiz n.next del_num)

  unfoldable pub del_use_cond : ℕ → Option Dlist → Run ℤ
  unfolding del_cond_loop empty
  del_use_cond fuel none = pure (negsuc 0)
  del_use_cond fuel (some thiz) = do
    is_empty ← empty (some thiz)
    if is_empty then pure (negsuc 0) else (do n ← del_cond_loop fuel thiz thiz.head 0; pure (pos n))

  unfoldable pub find_loop : ℕ → Dlist → (cursor : Ptr) → ℕ → Run ℤ
  find_loop zero thiz cursor index = fault
  find_loop (suc fuel) thiz cursor index = do
    n ← load cursor
    if n.next == thiz.head then pure (negsuc 0) else (do
      m ← load n.next
      if cmp m.payload
          then pure (pos index)
          else (do more ← next_int index; find_loop fuel thiz n.next more))

  unfoldable pub find : ℕ → Option Dlist → Run ℤ
  unfolding find_loop empty
  find fuel none = pure (negsuc 0)
  find fuel (some thiz) = do
    is_empty ← empty (some thiz)
    if is_empty then pure (negsuc 0) else find_loop fuel thiz thiz.head 0

-- `visit data ctx`, at the context of the call
module _ (visit : Ptr → Run (Unit {0})) where
  unfoldable pub foreach_loop : ℕ → Dlist → (cursor : Ptr) → Run (Unit {0})
  foreach_loop zero thiz cursor = fault
  foreach_loop (suc fuel) thiz cursor = do
    n ← load cursor
    if n.next == thiz.head
        then nothing
        else (do m ← load n.next; visit m.payload; foreach_loop fuel thiz n.next)

  unfoldable pub foreach : ℕ → Option Dlist → Run ℤ
  unfolding foreach_loop empty
  foreach fuel none = pure (negsuc 0)
  foreach fuel (some thiz) = do
    is_empty ← empty (some thiz)
    if is_empty then pure (negsuc 0) else (do foreach_loop fuel thiz thiz.head; pure (pos 0))

unfoldable pub gethead : Option Dlist → Run Ptr
unfolding empty
gethead none = pure null
gethead (some thiz) = do
  is_empty ← empty (some thiz)
  if is_empty then pure null else (do n ← load thiz.head; m ← load n.next; pure m.payload)

unfoldable pub gettail : Option Dlist → Run Ptr
unfolding empty
gettail none = pure null
gettail (some thiz) = do
  is_empty ← empty (some thiz)
  if is_empty then pure null else (do n ← load thiz.head; m ← load n.prev; pure m.payload)

unfoldable pub get : Option Dlist → ℤ → Run Ptr
unfolding empty get_node
get none index = pure null
get (some thiz) index = do
  is_empty ← empty (some thiz)
  if is_empty then pure null else (do
    node ← get_node (some thiz) index
    if node == null then pure null else (do m ← load node; pure m.payload))

-- The three setters destroy the old data through `ddfunc` without asking whether it is given.
unfoldable pub replace_data : Dlist → Ptr → Ptr → Run (Unit {0})
unfolding call_ddfunc
replace_data thiz node payload = do
  n ← load node
  if n.payload == null
      then set_data node payload
      else (do call_ddfunc thiz.ddfunc n.payload; set_data node null; set_data node payload)

unfoldable pub sethead : Option Dlist → Ptr → Run (Unit {0})
unfolding empty replace_data
sethead none payload = nothing
sethead (some thiz) payload = do
  is_empty ← empty (some thiz)
  if is_empty then nothing else (do n ← load thiz.head; replace_data thiz n.next payload)

unfoldable pub settail : Option Dlist → Ptr → Run (Unit {0})
unfolding empty replace_data
settail none payload = nothing
settail (some thiz) payload = do
  is_empty ← empty (some thiz)
  if is_empty then nothing else (do n ← load thiz.head; replace_data thiz n.prev payload)

unfoldable pub set : Option Dlist → Ptr → ℤ → Run ℤ
unfolding get_node replace_data
set (some thiz) payload (pos index) = do
  node ← get_node (some thiz) (pos index)
  if node == null then pure (negsuc 0) else (do replace_data thiz node payload; pure (pos 0))
set _ payload index = pure (negsuc 0)

unfoldable pub clear_loop : ℕ → Dlist → Run (Unit {0})
unfolding deltail
clear_loop zero thiz = fault
clear_loop (suc fuel) thiz = do
  n ← load thiz.head
  if n.next == thiz.head then nothing else (do deltail (some thiz); clear_loop fuel thiz)

unfoldable pub clear : ℕ → Option Dlist → Run (Unit {0})
unfolding clear_loop empty
clear fuel none = nothing
clear fuel (some thiz) = do
  is_empty ← empty (some thiz)
  if is_empty then nothing else clear_loop fuel thiz

-- The result is `*thiz` after the call.
unfoldable pub destroy : ℕ → Option Dlist → Run (Option Dlist)
unfolding clear destroy_node
destroy fuel none = pure none
destroy fuel (some thiz) = do clear fuel (some thiz); destroy_node thiz.head thiz.ddfunc; pure none
