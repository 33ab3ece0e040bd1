-- ===== src/Buffer/Write.antt =====
-- zbaselib_buffer.c: `zbaselib_buffer_write` refines the queue of the bytes held.
use native.Mathlib.Decide.{dec_le}
use zbaselib.Prelude.{
  le→leb, lt→leb, ℕ, ◌+◌, ◌-◌, ◌≤◌, ◌<◌, ◌≡◌, refl, some, List, ◌++◌, arith, leb, if◌then◌else◌,
  length, take, drop, length-take, length-drop, drop-take, take-take,
}
use zbaselib.Prelude.Int.{ℤ}
use zbaselib.Prelude.Block.{splice, read_at-ok, write_at-ok, length-splice}
use zbaselib.Prelude.Window.{splice_round, window-splice, window-splice_round, length-splice_round}
use zbaselib.Mutex.Laws.{IsBalanced}
use zbaselib.Buffer.Defs.{
  Buffer, done, out_of_range, zbuffer_lock, write_copy, write_locked, write_checked, write,
}
use zbaselib.Buffer.Inv.{IsValid, Served, contents, length-contents, block_or_nil}
use zbaselib.Buffer.Lock.{zbuffer_lock-mutex, zbuffer_lock-IsValid, zbuffer_unlock-zbuffer_lock}
use zbaselib.Buffer.Fifo.{put}

module _ {M : Type 0} (b : Buffer M) (wdata : List ℕ) (n : ℕ) (v : IsValid b)
    (have : n ≤ length wdata) (room : n ≤ b.buffer_size - b.busy_num) where
  abbrev mem : List ℕ
  mem = block_or_nil b.buffer

  write_copy-straight :
      (lock unlock : M → ℤ × M)
      → b.wpos + n ≤ b.buffer_size
      → write_copy lock unlock b mem wdata n
        ≡ some (record b {
          buffer = some (splice mem b.wpos (take n wdata));
          wpos = if leb b.buffer_size (b.wpos + n) then 0 else b.wpos + n;
        })
  unfolding write_copy
  write_copy-straight lock unlock h =
      ground
        (arith, v, read_at-ok wdata 0 n, write_at-ok mem b.wpos (take n wdata), length-take n wdata)

  write_copy-round :
      (lock unlock : M → ℤ × M)
      → b.buffer_size < b.wpos + n
      → write_copy lock unlock b mem wdata n
        ≡ some (record b {
          buffer = some (splice_round mem b.wpos (take n wdata));
          wpos = b.wpos + n - b.buffer_size;
        })
  unfolding write_copy splice_round
  write_copy-round lock unlock h =
      let head : ℕ = b.buffer_size - b.wpos in
      let rest : ℕ = b.wpos + n - b.buffer_size in
      ground (
        arith,
        v,
        read_at-ok wdata 0 head,
        write_at-ok mem b.wpos (take head wdata),
        read_at-ok wdata head rest,
        write_at-ok (splice mem b.wpos (take head wdata)) 0 (take rest (drop head wdata)),
        length-take head wdata,
        length-drop head wdata,
        length-take rest (drop head wdata),
        length-take n wdata,
        length-splice mem b.wpos (take head wdata),
        drop-take head rest wdata,
        take-take head n wdata,
        take-take rest rest (drop head wdata),
      )

  -- The body under the lock, where the data fits.
  write_copy-appends :
      (lock unlock : M → ℤ × M)
      → 0 < n
      → (c : Buffer M) × (write_copy lock unlock b mem wdata n ≡ some c)
        × (c.islock ≡ b.islock)
        × (c.mutex ≡ b.mutex)
        × (c.busy_num ≡ b.busy_num)
        × IsValid (record c { busy_num = b.busy_num + n })
        × (c.buffer_size ≡ b.buffer_size)
        × (contents (record c { busy_num = b.busy_num + n }) ≡ contents b ++ take n wdata)
  unfolding contents
  write_copy-appends lock unlock some_data = elim (dec_le (b.wpos + n) b.buffer_size) [
    | yes h ↦ (
      _,
      write_copy-straight lock unlock h,
      refl,
      refl,
      refl,
      ground (arith, v, length-splice mem b.wpos (take n wdata), length-take n wdata),
      refl,
      ground (
        arith,
        v,
        length-take n wdata,
        window-splice mem (take n wdata) b.rpos b.busy_num b.wpos,
      ),
    )
    | no h ↦ (
      _,
      write_copy-round lock unlock (omega arith),
      refl,
      refl,
      refl,
      ground (arith, v, length-splice_round mem (take n wdata) b.wpos, length-take n wdata),
      refl,
      ground (
        arith,
        v,
        length-take n wdata,
        window-splice_round mem (take n wdata) b.rpos b.busy_num b.wpos,
      ),
    )
  ]

module _ {M : Type 0} (lock unlock : M → ℤ × M) (b : Buffer M) (wdata : List ℕ) (n : ℕ)
    (balanced : IsBalanced lock unlock) (v : IsValid b) (some_data : 0 < n) where
  locked : Buffer M
  locked = zbuffer_lock lock unlock b

  write-full :
      b.buffer_size - b.busy_num < n
      → write lock unlock (some b) (some wdata) n ≡ some (out_of_range, some b)
  unfolding write write_checked write_locked
  write-full over = ground (
    arith,
    v,
    zbuffer_lock-mutex lock unlock b,
    zbuffer_unlock-zbuffer_lock lock unlock b (zbuffer_lock lock unlock b) balanced,
  )

  write-copies :
      n ≤ b.buffer_size - b.busy_num
      → (c : Buffer M)
      → write_copy lock unlock (zbuffer_lock lock unlock b) (block_or_nil b.buffer) wdata n ≡ some c
      → c.islock ≡ b.islock
      → c.mutex ≡ (zbuffer_lock lock unlock b).mutex
      → c.busy_num ≡ b.busy_num
      → write lock unlock (some b) (some wdata) n
        ≡ some (done, some (record c { busy_num = b.busy_num + n; mutex = b.mutex }))
  unfolding write write_checked write_locked
  write-copies room c copied i m k = ground (
    arith,
    v,
    zbuffer_lock-mutex lock unlock b,
    zbuffer_unlock-zbuffer_lock lock unlock b (record c { busy_num = b.busy_num + n }) balanced i m,
  )

  write-fits :
      n ≤ length wdata
      → n ≤ b.buffer_size - b.busy_num
      → Served b done (contents b ++ take n wdata) (write lock unlock (some b) (some wdata) n)
  unfolding contents
  write-fits have room =
      let L : Buffer M = zbuffer_lock lock unlock b in
      let e : L ≡ record b { mutex = L.mutex } = zbuffer_lock-mutex lock unlock b in
      let (c, copied, i, m, k, valid, size, held) =
        write_copy-appends L wdata n (zbuffer_lock-IsValid lock unlock b v) have (ground arith) lock
          unlock some_data in
      (
        record c { busy_num = b.busy_num + n; mutex = b.mutex },
        write-copies room c (ground arith) (ground arith) m (ground arith),
        ground arith,
        ground arith,
        ground arith,
      )

-- `zbaselib_buffer_write` of n > 0 bytes to a valid ring does what `put` does to the queue of its
-- contents, with the same status: all n bytes go to the end of the queue, or, if they do not fit,
-- it answers -2 and the contents stay. The ring stays valid, and the mutex is released.
pub write-put :
    {M : Type 0} (lock unlock : M → ℤ × M) (b : Buffer M) (wdata : List ℕ) (n : ℕ)
    → IsBalanced lock unlock
    → IsValid b
    → 0 < n
    → n ≤ length wdata
    → let (status, queue) = put b.buffer_size (contents b) (take n wdata) in
      Served b status queue (write lock unlock (some b) (some wdata) n)
unfolding put
write-put lock unlock b wdata n balanced v some_data have =
    elim (dec_le n (b.buffer_size - b.busy_num)) [
      | yes room ↦
          rw
            (le→leb (length (contents b) + length (take n wdata)) b.buffer_size
              (omega (arith, length-contents b v, length-take n wdata)))
            (write-fits lock unlock b wdata n balanced v some_data have room)
      | no full ↦
          rw
            (lt→leb (length (contents b) + length (take n wdata)) b.buffer_size
              (omega (arith, length-contents b v, length-take n wdata)))
            (
              b,
              write-full lock unlock b wdata n balanced v some_data (omega arith),
              v,
              ground arith,
              refl,
            )
    ]
