-- ===== src/Lib.antt =====
-- zbaselib, a small C library of containers and system helpers: a model of its containers, its digest,
-- its red-black tree, its socket buffer, its addresses and its thread pool.
--
-- Parts and their files:
--   Mutex     zbaselib_thread.c, zbaselib_mutex_create, _lock and _unlock (the POSIX branch).
--   Buffer    zbaselib_buffer.c, the byte ring: create, write, read, skip and get in Buffer/Defs,
--             busynum, isempty, isfull, clear, get_readpos and get_writepos in Buffer/Status.
--             Buffer/Fifo is what a ring promises: a queue of bytes that takes or gives whole runs.
--   Zbuffer   zbaselib_buffer.c, zbuffer_new and zbuffer_set.
--   Array     zbaselib_array.c, the growing array: Array/Defs.
--   Dlist     zbaselib_list.c, the doubly linked list: Dlist/Heap is the heap of nodes, Dlist/Defs
--             has the node functions, create, size and the insertions, Dlist/Ops the other operations,
--             Dlist/Iter the iterator. A function is named as in the source without `zbaselib_list_`
--             or `zlist_`.
--   Md5       zbaselib_md5.c: Md5/Steps is the work on one block of 64 bytes, Md5/Defs has init, update
--             and final. Md5/Rfc is the digest of a whole message after RFC 1321, with its tables and
--             functions written out apart from those of the code: the padded message, block by block.
--   Stack     zbaselib_stack.c, a handle on a list with its top at the head.
--   Queue     zbaselib_queue.c, a handle on a list, pushed at the tail and popped at the head.
--   Rbtree    zbaselib_rbtree.c, the red-black tree: Rbtree/Store is the memory of its nodes, Rbtree/Defs has
--             the rotations, push, getmin, getmax, find, init, empty and size, Rbtree/Delete delete, popmin,
--             delnode and deinit. Code that stands twice in the source with left and right exchanged is one
--             definition with a side as its argument. Rbtree/Tree says which tree a memory holds, with a
--             path to one of its subtrees; Rbtree/Balance and Rbtree/Order are what makes it a red-black
--             tree and a search tree.
--   Socket    zbaselib_socket.c: the loops over send (sendn, sendn_retry, udp_sendn) and recv: Socket/Defs.
--   Skbuffer  zbaselib_socket.c, the socket buffer: Skbuffer/Defs has create, write, read, get and skip,
--             Skbuffer/Net has recv, udp_recv, send, datasize, empty, clear and read_pos. A function is
--             named as in the source without `zbaselib_skbuffer_`. Skbuffer/Inv says which bytes it holds.
--   Inet      zbaselib_socket.c, addresses as text: Inet/V4 has inet_pton4 and inet_ntop4, Inet/V6/Read
--             has inet_pton6 and zbaselib_inet_pton, Inet/V6/Write inet_ntop6 and zbaselib_inet_ntop.
--   Pool      zbaselib_thread.c, the thread pool: Pool/Defs has zbaselib_threadpool_func as the steps of a
--             worker from place to place, addtask, destroy, status, and the relation of all steps; Pool/Inv
--             is what holds at every step.
--   Dirs      zbaselib.c, zbaselib_createdir.
--   Prelude   numbers, lists, signed integers and blocks of memory for all of these.
-- The byte ring locks a mutex around each call if it was created with one; stack and queue call the
-- list for all that they do. The socket buffer locks as the ring does, receives into its block and sends
-- from it by sendn. The pool's state stands by itself: its mutex is a holder, its queue a list of tasks. The
-- other modules in a part's folder hold proofs.
--
-- State. A struct is a record that a call takes and returns; a pointer that may be NULL is an option.
-- A fault of the C code (an access through NULL, to freed memory or outside a block, the overflow of an
-- `int`) is `none` as the result of a call. A block of memory is the list of its bytes or elements. List
-- nodes stand in a heap from addresses to nodes, with address 0 for NULL. The callbacks of the list
-- (the data destructor and the visitor of foreach) are kept as a log of their calls; they are taken
-- to leave the list alone. A comparison callback is a Boolean test of the data.
--
-- Arguments. What malloc, calloc and realloc answer, and what the pthread calls do to a mutex, are
-- arguments of the definitions that call them; the theorems on the byte ring and the
-- socket buffer suppose that unlocking undoes locking, and those on the socket buffer that realloc gives
-- a block of the size asked for with the old bytes in front. A fresh node is an address that the heap does not use; for list nodes calloc does
-- not fail, since the code does not test it. The same goes for the nodes of the tree,
-- which stand with the sentinel in a memory of their own; its comparison function is a function of two keys.
--
-- The answers of recv are a function of the number of bytes asked for; those of recvfrom and send are
-- a list, one for each call in turn, and a loop that meets its end has not returned. A refusal tells
-- whether zbaselib_socket_rw_wouldblock() holds. The pauses of the loops are left out.
--
-- Threads. The pool has one holder of its mutex at a time, and a step of one thread ends where another may
-- come between. A wait on a condition may end at any time, so that signals are no steps; the joins of
-- destroy are one step. That a caller comes only before the pool is freed is part of the step.
--
-- Numbers. `unsigned int` arithmetic in the byte ring wraps at 2^32 (add32 and sub32). The invariant of
-- a ring bounds its size by 2^31, which keeps the sums of the code below 2^32. A sum or product of
-- type `int` in the array is defined below 2^31 only, and so are the counts of elements, of deletions and of
-- the index in the list (next_int), which the theorems on them keep by a list of fewer than 2^31 elements.
-- The size of a tree is taken to stay below 2^31.
-- The words of MD5 wrap at 2^32 and its count of bytes at 2^64; the source reads the words of a block
-- as the machine stores them, and the model takes a little-endian machine.
--
-- The file system of zbaselib_createdir is a state with access and mkdir as arguments; the theorem on it
-- supposes that a mkdir that does not fail makes its directory and that none takes one away.
--
-- Fuel. The loops of the tree take fuel too: one round more than the tree is deep is enough for a push, two
-- for a search. The loops of the list that follow links take fuel, and end in a fault without it. Each
-- theorem on them shows that more fuel than the list has elements gives the result. A number of printf
-- has at most 32 digits, which is enough for an `unsigned int`.
--
-- Not modelled: functions that only free memory (zbaselib_buffer_destory, zbuffer_delete,
-- zbaselib_array_destroy, zbaselib_list_iterater_destroy), zbaselib_array_sort, which is one call of a
-- function the caller gives, zbaselib_skbuffer_destroy, the other calls on sockets
-- and network interfaces, which are system calls, the wrappers of threads and conditions, the
-- file map and the other functions of zbaselib.c; and the tests and build files.
pub mod Prelude
pub mod Mutex
pub mod Buffer
pub mod Zbuffer
pub mod Array
pub mod Dlist
pub mod Stack
pub mod Queue
pub mod Md5
pub mod Socket
pub mod Skbuffer
pub mod Inet
pub mod Pool
pub mod Rbtree
pub mod Dirs
