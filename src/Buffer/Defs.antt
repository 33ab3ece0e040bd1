-- ===== src/Buffer/Defs.antt =====
-- zbaselib_buffer.c, the byte ring. A pointer that may be NULL is an option, a block of memory the
-- list of its bytes, and `none` as a result is an access outside a block. Positions and sizes are
-- `unsigned int`, with their wrap-around.
use zbaselib.Prelude.{
  ℕ, ◌+◌, ◌-◌, ◌%◌, ◌^◌, Bool, Option, none, some, List, ◌>>=◌, ◌==◌, leb, ltb, if◌then◌else◌,
  replicate, ◌&&◌,
}
use zbaselib.Prelude.Int.{ℤ, pos, negsuc, is_zero}
use zbaselib.Prelude.Block.{read_at, write_at}
use zbaselib.Mutex.Defs.{mutex_lock, mutex_unlock}

-- `unsigned int` addition and subtraction
abbrev pub add32 : ℕ → ℕ → ℕ
add32 a b = (a + b) % 2 ^ 32

abbrev pub sub32 : ℕ → ℕ → ℕ
sub32 a b = (a + 2 ^ 32 - b) % 2 ^ 32

-- `struct _zbaselib_buffer`
pub record Buffer (M : Type 0) : Type 0 where
  pub buffer : Option (List ℕ)
  pub buffer_size : ℕ
  pub wpos : ℕ
  pub rpos : ℕ
  pub busy_num : ℕ
  pub mutex : Option M
  pub islock : ℤ

-- the statuses 0, -1 (a bad argument) and -2 (too little room, or too few bytes)
abbrev pub done : ℤ
done = pos 0

abbrev pub bad_argument : ℤ
bad_argument = negsuc 0

abbrev pub out_of_range : ℤ
out_of_range = negsuc 1

-- What a call gives back: its status and `*thiz`. A call that reads gives `*rdata` between them.
abbrev pub Reply : Type 0 → Type 0
Reply M = Option (ℤ × Option (Buffer M))

abbrev pub ReadReply : Type 0 → Type 0
ReadReply M = Option (ℤ × Option (List ℕ) × Option (Buffer M))

-- `thiz_ok` and `block_ok` tell whether the two calls of calloc succeed, and `new_mutex` is what
-- `zbaselib_mutex_create` returns.
unfoldable pub create :
    {M : Type 0} (thiz_ok block_ok : Bool) (new_mutex : Option M) (buffer_size : ℕ) (islock : ℤ)
    → Option (Buffer M)
create thiz_ok block_ok new_mutex buffer_size islock =
    if thiz_ok && block_ok
    then some (record {
      buffer = some (replicate buffer_size 0);
      buffer_size = buffer_size;
      wpos = 0;
      rpos = 0;
      busy_num = 0;
      mutex = if is_zero islock then none else new_mutex;
      islock = islock;
    })
    else none

module _ {M : Type 0} (pthread_mutex_lock pthread_mutex_unlock : M → ℤ × M) where
  -- ZBUFFER_LOCK and ZBUFFER_UNLOCK
  unfoldable pub zbuffer_lock : Buffer M → Buffer M
  zbuffer_lock b =
      if is_zero b.islock then b else record b { mutex = (mutex_lock pthread_mutex_lock b.mutex).1 }

  unfoldable pub zbuffer_unlock : Buffer M → Buffer M
  zbuffer_unlock b =
      if is_zero b.islock
      then b
      else record b { mutex = (mutex_unlock pthread_mutex_unlock b.mutex).1 }

  -- The body of `write` under the lock, once the data is known to fit: the bytes and `wpos`.
  unfoldable pub write_copy : Buffer M → List ℕ → List ℕ → ℕ → Option (Buffer M)
  write_copy b mem wdata data_len =
      if leb (add32 b.wpos data_len) b.buffer_size
      then (do
        bytes ← read_at wdata 0 data_len
        mem' ← write_at mem b.wpos bytes
        let w = add32 b.wpos data_len
        some (record b { buffer = some mem'; wpos = if leb b.buffer_size w then 0 else w }))
      else (do
        let head = sub32 b.buffer_size b.wpos
        let rest = sub32 (add32 data_len b.wpos) b.buffer_size
        first ← read_at wdata 0 head
        mem' ← write_at mem b.wpos first
        second ← read_at wdata (b.buffer_size - b.wpos) rest
        mem'' ← write_at mem' 0 second
        some (record b { buffer = some mem''; wpos = rest }))

  unfoldable pub write_locked : Buffer M → List ℕ → List ℕ → ℕ → Reply M
  write_locked b mem wdata data_len =
      if ltb (sub32 b.buffer_size b.busy_num) data_len
      then some (out_of_range, some (zbuffer_unlock b))
      else (do
        b' ← write_copy b mem wdata data_len
        some (done, some (zbuffer_unlock (record b' { busy_num = add32 b'.busy_num data_len }))))

  unfoldable pub write_checked : Buffer M → Option (List ℕ) → Option (List ℕ) → ℕ → Reply M
  write_checked b (some mem) (some wdata) data_len =
      if data_len == 0
      then some (bad_argument, some b)
      else write_locked (zbuffer_lock b) mem wdata data_len
  write_checked b _ _ data_len = some (bad_argument, some b)

  unfoldable pub write : Option (Buffer M) → Option (List ℕ) → ℕ → Reply M
  write (some b) wdata data_len = write_checked b b.buffer wdata data_len
  write none wdata data_len = some (bad_argument, none)

  -- The copy out of the ring that `read` and `get` share: `*rdata` after it.
  unfoldable pub copy_out : Buffer M → List ℕ → List ℕ → ℕ → Option (List ℕ)
  copy_out b mem rdata data_len =
      if leb (add32 b.rpos data_len) b.buffer_size
      then (do bytes ← read_at mem b.rpos data_len; write_at rdata 0 bytes)
      else (do
        first ← read_at mem b.rpos (sub32 b.buffer_size b.rpos)
        rdata' ← write_at rdata 0 first
        second ← read_at mem 0 (sub32 (add32 data_len b.rpos) b.buffer_size)
        write_at rdata' (b.buffer_size - b.rpos) second)

  -- The move of `rpos` that `read` and `skip` share, and the count of bytes left.
  unfoldable pub advance : Buffer M → ℕ → Buffer M
  advance b data_len = record b {
    rpos =
        if leb (add32 b.rpos data_len) b.buffer_size
        then (if add32 b.rpos data_len == b.buffer_size then 0 else add32 b.rpos data_len)
        else sub32 (add32 data_len b.rpos) b.buffer_size;
    busy_num = sub32 b.busy_num data_len;
  }

  unfoldable pub read_locked : Buffer M → List ℕ → List ℕ → ℕ → ReadReply M
  read_locked b mem rdata data_len =
      if ltb b.busy_num data_len
      then some (out_of_range, some rdata, some (zbuffer_unlock b))
      else (do
        out ← copy_out b mem rdata data_len
        some (done, some out, some (zbuffer_unlock (advance b data_len))))

  unfoldable pub read_checked : Buffer M → Option (List ℕ) → Option (List ℕ) → ℕ → ReadReply M
  read_checked b (some mem) (some rdata) data_len =
      if data_len == 0
      then some (bad_argument, some rdata, some b)
      else read_locked (zbuffer_lock b) mem rdata data_len
  read_checked b _ rdata data_len = some (bad_argument, rdata, some b)

  unfoldable pub read : Option (Buffer M) → Option (List ℕ) → ℕ → ReadReply M
  read (some b) rdata data_len = read_checked b b.buffer rdata data_len
  read none rdata data_len = some (bad_argument, rdata, none)

  unfoldable pub skip_checked : Buffer M → Option (List ℕ) → ℕ → ℤ × Option (Buffer M)
  skip_checked b (some mem) data_len =
      if data_len == 0
      then (bad_argument, some b)
      else if ltb (zbuffer_lock b).busy_num data_len
      then (out_of_range, some (zbuffer_unlock (zbuffer_lock b)))
      else (done, some (zbuffer_unlock (advance (zbuffer_lock b) data_len)))
  skip_checked b none data_len = (bad_argument, some b)

  unfoldable pub skip : Option (Buffer M) → ℕ → ℤ × Option (Buffer M)
  skip (some b) data_len = skip_checked b b.buffer data_len
  skip none data_len = (bad_argument, none)

  unfoldable pub get_locked : Buffer M → List ℕ → List ℕ → ℕ → ReadReply M
  get_locked b mem rdata data_len =
      if ltb b.busy_num data_len
      then some (out_of_range, some rdata, some (zbuffer_unlock b))
      else (do out ← copy_out b mem rdata data_len; some (done, some out, some (zbuffer_unlock b)))

  unfoldable pub get_checked : Buffer M → Option (List ℕ) → Option (List ℕ) → ℕ → ReadReply M
  get_checked b (some mem) (some rdata) data_len =
      if data_len == 0
      then some (bad_argument, some rdata, some b)
      else get_locked (zbuffer_lock b) mem rdata data_len
  get_checked b _ rdata data_len = some (bad_argument, rdata, some b)

  unfoldable pub get : Option (Buffer M) → Option (List ℕ) → ℕ → ReadReply M
  get (some b) rdata data_len = get_checked b b.buffer rdata data_len
  get none rdata data_len = some (bad_argument, rdata, none)
