-- ===== src/Buffer/Ask.antt =====
-- zbaselib_buffer.c: the questions about a ring agree with the queue of its contents, and `clear`
-- empties it.
use zbaselib.Prelude.{◌≡◌, refl, some, [], arith, ◌==◌, length}
use zbaselib.Prelude.Int.{ℤ}
use zbaselib.Prelude.Window.{window}
use zbaselib.Mutex.Laws.{IsBalanced}
use zbaselib.Buffer.Defs.{Buffer, zbuffer_lock}
use zbaselib.Buffer.Status.{busynum, isempty, isfull, clear}
use zbaselib.Buffer.Inv.{IsValid, SameFrame, contents, length-contents}
use zbaselib.Buffer.Lock.{zbuffer_lock-mutex, zbuffer_unlock-zbuffer_lock}

module _ {M : Type 0} (lock unlock : M → ℤ × M) (b : Buffer M) (balanced : IsBalanced lock unlock)
    (v : IsValid b) where
  -- On a valid ring `zbaselib_buffer_busynum` is the number of bytes held, `_isempty` and `_isfull`
  -- tell whether that is 0 or the size of the ring, and none of them changes the ring.
  questions-contents :
      let held = length (contents b) in
      (busynum lock unlock (some b) ≡ (held, some b))
      × (isempty lock unlock (some b) ≡ some (held == 0, b))
      × (isfull lock unlock (some b) ≡ some (held == b.buffer_size, b))
  unfolding busynum isempty isfull
  questions-contents = ground (
    arith,
    length-contents b v,
    zbuffer_lock-mutex lock unlock b,
    zbuffer_unlock-zbuffer_lock lock unlock b (zbuffer_lock lock unlock b) balanced,
  )

  -- `zbaselib_buffer_clear` of a valid ring leaves a valid ring with no bytes, of the same size and with
  -- the mutex released.
  clear-empty :
      (b' : Buffer M) × (clear lock unlock (some b) ≡ some b')
      × IsValid b'
      × SameFrame b b'
      × (contents b' ≡ [])
  unfolding clear contents window
  clear-empty = (
    record b { wpos = 0; rpos = 0; busy_num = 0 },
    ground (
      arith,
      zbuffer_lock-mutex lock unlock b,
      zbuffer_unlock-zbuffer_lock lock unlock b
          (record (zbuffer_lock lock unlock b) { wpos = 0; rpos = 0; busy_num = 0 }) balanced,
    ),
    ground (arith, v),
    ground arith,
    refl,
  )
