-- ===== src/Skbuffer/Defs.antt =====
-- zbaselib_socket.c, the socket buffer: state, create, room, write and the reads.
use zbaselib.Prelude.{
  ℕ, ◌+◌, ◌*◌, ◌/◌, ◌%◌, ◌^◌, Bool, true, false, Option, none, some, List, ◌==◌, ◌>>=◌, ltb,
  if◌then◌else◌, ◌&&◌, replicate,
}
use zbaselib.Prelude.Int.{ℤ, pos, negsuc, is_zero, to_size, signed32}
use zbaselib.Prelude.Block.{read_at, write_at}
use zbaselib.Mutex.Defs.{mutex_lock, mutex_unlock}
use zbaselib.Buffer.Defs.{add32, sub32}

-- `struct _zbaselib_skbuffer`
pub record Skbuffer (M : Type 0) : Type 0 where
  pub sock : ℤ
  pub islock : ℤ
  pub mutex : Option M
  pub buf : Option (List ℕ)
  pub buf_size : ℕ
  pub buf_max_size : ℕ
  pub data_size : ℕ
  pub rpos : ℕ
  pub wpos : ℕ
  pub sock_snd_buf_size : ℤ

-- ZBASELIB_SKBUFFER_MIN_NUM
abbrev pub min_num : ℕ
min_num = 64

-- The result and `*thiz` of a call, where `none` is a fault.
abbrev pub Reply : Type 0 → Type 0
Reply M = Option (ℤ × Option (Skbuffer M))

-- The same with the bytes at the caller's `data`.
abbrev pub ReadReply : Type 0 → Type 0
ReadReply M = Option (ℤ × Option (List ℕ) × Option (Skbuffer M))

-- `thiz_ok` and `buf_ok` tell whether the two calls of calloc succeed, `sndbuf` is the OPT_SNDBUF of the
-- socket, if it can be asked for, and `new_mutex` what zbaselib_mutex_create returns.
unfoldable pub create :
    {M : Type 0} (thiz_ok buf_ok : Bool) (sndbuf : Option ℤ) (new_mutex : Option M)
    → (buf_size buf_max_size : ℕ) (lock sock : ℤ) → Option (Skbuffer M)
create false buf_ok sndbuf new_mutex buf_size buf_max_size lock sock = none
create true buf_ok sndbuf new_mutex buf_size buf_max_size lock sock =
    let size : ℕ = if buf_size == 0 then 128 else buf_size in
    some (record {
      sock = sock;
      islock = lock;
      mutex = if is_zero lock then none else new_mutex;
      buf = if buf_ok then some (replicate size 0) else none;
      buf_size = size;
      buf_max_size = if ltb size buf_max_size then buf_max_size else size * 4 % 2 ^ 32;
      data_size = 0;
      rpos = 0;
      wpos = 0;
      sock_snd_buf_size = elim sndbuf [ none ↦ pos 4096 | some n ↦ n ];
    })

module _ {M : Type 0} where
  -- The memmove of the bytes to the front of the block.
  unfoldable pub pull : Skbuffer M → Option (Skbuffer M)
  pull b = do
    mem ← b.buf
    bytes ← read_at mem b.rpos b.data_size
    mem' ← write_at mem 0 bytes
    some (record b { buf = some mem'; wpos = sub32 b.wpos b.rpos; rpos = 0 })

  -- The reset once all is read: `data_size` is 0 and `rpos` equal to `wpos`.
  unfoldable pub rewind : Skbuffer M → Skbuffer M
  rewind b = if b.data_size == 0 && (b.rpos == b.wpos) then record b { rpos = 0; wpos = 0 } else b

  unfoldable pub consume : Skbuffer M → ℕ → Skbuffer M
  unfolding rewind
  consume b size =
      rewind (record b { rpos = add32 b.rpos size; data_size = sub32 b.data_size size })

-- realloc of a block to a size: the new block, or nothing if it fails.
module _ {M : Type 0} (realloc : List ℕ → ℕ → Option (List ℕ)) where
  -- The block half as large again, and by `extra` more; its size passes through an `int`.
  unfoldable pub grow : Skbuffer M → ℕ → Option (Skbuffer M)
  grow b extra = do
    mem ← b.buf
    let size = (b.buf_size + b.buf_size / 2 + extra) % 2 ^ 32
    some (record b { buf = realloc mem (to_size (signed32 size)); buf_size = size })

module _ {M : Type 0} (pthread_mutex_lock pthread_mutex_unlock : M → ℤ × M) where
  -- ZBASELIB_SKBUFFER_LOCK and ZBASELIB_SKBUFFER_UNLOCK
  unfoldable pub skbuffer_lock : Skbuffer M → Skbuffer M
  skbuffer_lock b =
      if is_zero b.islock then b else record b { mutex = (mutex_lock pthread_mutex_lock b.mutex).1 }

  unfoldable pub skbuffer_unlock : Skbuffer M → Skbuffer M
  skbuffer_unlock b =
      if is_zero b.islock
      then b
      else record b { mutex = (mutex_unlock pthread_mutex_unlock b.mutex).1 }

  -- The copy of `write`, with room for it.
  unfoldable pub store : Skbuffer M → List ℕ → ℕ → Reply M
  unfolding skbuffer_unlock
  store b source size = do
    mem ← b.buf
    bytes ← read_at source 0 size
    mem' ← write_at mem b.wpos bytes
    some (
      pos 0,
      some (
          skbuffer_unlock (record b {
            buf = some mem';
            wpos = add32 b.wpos size;
            data_size = add32 b.data_size size;
          })),
    )

  -- The second test of `write`: grow if the data do not fit, then copy.
  unfoldable pub write_room :
      (realloc : List ℕ → ℕ → Option (List ℕ)) → Skbuffer M → List ℕ → ℕ → Reply M
  unfolding store grow skbuffer_unlock
  write_room realloc b source size =
      if ltb b.buf_size (add32 b.wpos size)
      then (if ltb b.buf_max_size b.buf_size
          then some (negsuc 1, some (skbuffer_unlock b))
          else (do b' ← grow realloc b size; store b' source size))
      else store b source size

  unfoldable pub write_locked :
      (realloc : List ℕ → ℕ → Option (List ℕ)) → Skbuffer M → List ℕ → ℕ → Reply M
  unfolding pull write_room
  write_locked realloc b source size = do
    b' ← if ltb b.buf_size (add32 b.wpos size) && ltb 0 b.rpos then pull b else some b
    write_room realloc b' source size

  unfoldable pub write_checked :
      (realloc : List ℕ → ℕ → Option (List ℕ))
      → Skbuffer M
      → Option (List ℕ)
      → Option (List ℕ)
      → ℕ
      → Reply M
  unfolding write_locked skbuffer_lock
  write_checked realloc b (some mem) (some source) size =
      write_locked realloc (skbuffer_lock b) source size
  write_checked realloc b _ _ size = some (negsuc 0, some b)

  unfoldable pub write :
      (realloc : List ℕ → ℕ → Option (List ℕ)) → Option (Skbuffer M) → Option (List ℕ) → ℕ → Reply M
  unfolding write_checked
  write realloc none source size = some (negsuc 0, none)
  write realloc (some b) source size = write_checked realloc b b.buf source size

  -- `size < thiz->data_size ? size : thiz->data_size`
  abbrev pub at_most : Skbuffer M → ℕ → ℕ
  at_most b size = if ltb size b.data_size then size else b.data_size

  unfoldable pub read_locked : Skbuffer M → List ℕ → ℕ → ReadReply M
  unfolding consume skbuffer_unlock
  read_locked b target n =
      if n == 0 then some (pos 0, some target, some (skbuffer_unlock b)) else (do
        mem ← b.buf
        bytes ← read_at mem b.rpos n
        target' ← write_at target 0 bytes
        some (signed32 n, some target', some (skbuffer_unlock (consume b n))))

  unfoldable pub read_checked : Skbuffer M → Option (List ℕ) → Option (List ℕ) → ℕ → ReadReply M
  unfolding read_locked skbuffer_lock
  read_checked b (some mem) (some target) size =
      read_locked (skbuffer_lock b) target (at_most (skbuffer_lock b) size)
  read_checked b _ target size = some (negsuc 0, target, some b)

  unfoldable pub read : Option (Skbuffer M) → Option (List ℕ) → ℕ → ReadReply M
  unfolding read_checked
  read none target size = some (negsuc 0, target, none)
  read (some b) target size = read_checked b b.buf target size

  unfoldable pub get_locked : Skbuffer M → List ℕ → ℕ → ReadReply M
  unfolding skbuffer_unlock
  get_locked b target n =
      if n == 0 then some (pos 0, some target, some (skbuffer_unlock b)) else (do
        mem ← b.buf
        bytes ← read_at mem b.rpos n
        target' ← write_at target 0 bytes
        some (signed32 n, some target', some (skbuffer_unlock b)))

  unfoldable pub get_checked : Skbuffer M → Option (List ℕ) → Option (List ℕ) → ℕ → ReadReply M
  unfolding get_locked skbuffer_lock
  get_checked b (some mem) (some target) size =
      get_locked (skbuffer_lock b) target (at_most (skbuffer_lock b) size)
  get_checked b _ target size = some (negsuc 0, target, some b)

  unfoldable pub get : Option (Skbuffer M) → Option (List ℕ) → ℕ → ReadReply M
  unfolding get_checked
  get none target size = some (negsuc 0, target, none)
  get (some b) target size = get_checked b b.buf target size

  unfoldable pub skip_locked : Skbuffer M → ℕ → ℤ × Option (Skbuffer M)
  unfolding consume skbuffer_unlock
  skip_locked b n =
      if n == 0
      then (pos 0, some (skbuffer_unlock b))
      else (signed32 n, some (skbuffer_unlock (consume b n)))

  unfoldable pub skip_checked : Skbuffer M → Option (List ℕ) → ℕ → ℤ × Option (Skbuffer M)
  unfolding skip_locked skbuffer_lock
  skip_checked b (some mem) size = skip_locked (skbuffer_lock b) (at_most (skbuffer_lock b) size)
  skip_checked b none size = (negsuc 0, some b)

  unfoldable pub skip : Option (Skbuffer M) → ℕ → ℤ × Option (Skbuffer M)
  unfolding skip_checked
  skip none size = (negsuc 0, none)
  skip (some b) size = skip_checked b b.buf size
