-- ===== src/Skbuffer/Ask.antt =====
-- zbaselib_socket.c, the socket buffer: a new buffer, the questions about one, and clear.
use zbaselib.Prelude.{
  ℕ, ◌^◌, ◌<◌, ◌≡◌, refl, true, Option, none, some, [], arith, ◌==◌, length-replicate,
  if◌then◌else◌, length,
}
use zbaselib.Prelude.Int.{ℤ, pos}
use zbaselib.Prelude.Block.{read_at, read_at-ok}
use zbaselib.Prelude.Span.{span}
use zbaselib.Mutex.Laws.{IsBalanced}
use zbaselib.Buffer.Inv.{block_or_nil}
use zbaselib.Skbuffer.Defs.{Skbuffer, create, skbuffer_lock, skbuffer_unlock}
use zbaselib.Skbuffer.Net.{asked, datasize, empty, clear, clear_locked, read_pos}
use zbaselib.Skbuffer.Inv.{
  IsValid, SameFrame, skbuffer_unlock-skbuffer_lock, contents, length-contents, skbuffer_lock-mutex,
}

module _ {M : Type 0} (lock unlock : M → ℤ × M) (b : Skbuffer M) (balanced : IsBalanced lock unlock)
    (v : IsValid b) where
  abbrev l : Skbuffer M
  l = skbuffer_lock lock unlock b

  untouched : skbuffer_unlock lock unlock l ≡ b
  untouched = ground (
    arith,
    skbuffer_lock-mutex lock unlock b,
    skbuffer_unlock-skbuffer_lock lock unlock b l balanced,
  )

  datasize-length : datasize lock unlock (some b) ≡ (pos (length (contents b)), some b)
  unfolding datasize asked
  datasize-length =
      ground (arith, v, length-contents b v, untouched, skbuffer_lock-mutex lock unlock b)

  empty-length : empty lock unlock (some b) ≡ (length (contents b) == 0, some b)
  unfolding empty asked
  empty-length =
      ground (arith, v, length-contents b v, untouched, skbuffer_lock-mutex lock unlock b)

  read_pos-contents :
      (off : ℕ) × (read_pos lock unlock (some b) ≡ (some off, some b))
      × (read_at (block_or_nil b.buf) off (length (contents b)) ≡ some (contents b))
  unfolding read_pos asked contents span
  read_pos-contents = (
    b.rpos,
    ground (arith, v, untouched, skbuffer_lock-mutex lock unlock b),
    ground (arith, v, read_at-ok (block_or_nil b.buf) b.rpos b.data_size, length-contents b v),
  )

  clear-nil :
      (b' : Skbuffer M) × (clear lock unlock (some b) ≡ some b')
      × IsValid b'
      × SameFrame b b'
      × (contents b' ≡ [])
  unfolding clear clear_locked contents span
  clear-nil =
      let c : Skbuffer M = record l { rpos = 0; wpos = 0; data_size = 0 } in
      (
        record b { rpos = 0; wpos = 0; data_size = 0 },
        ground (
          arith,
          v,
          skbuffer_lock-mutex lock unlock b,
          skbuffer_unlock-skbuffer_lock lock unlock b c balanced,
        ),
        ground (arith, v),
        ground arith,
        refl,
      )

-- Of a valid buffer that holds the bytes q, `zbaselib_skbuffer_datasize` tells their number, `_empty`
-- whether there are none, and `_read_pos` the place in the block where they stand, all without a change
-- of the buffer. `_clear` leaves a valid buffer that holds nothing.
pub asks-contents :
    {M : Type 0} (lock unlock : M → ℤ × M) (b : Skbuffer M)
    → IsBalanced lock unlock
    → IsValid b
    → let q = contents b in
      (datasize lock unlock (some b) ≡ (pos (length q), some b))
      × (empty lock unlock (some b) ≡ (length q == 0, some b))
      × ((off : ℕ) × (read_pos lock unlock (some b) ≡ (some off, some b))
          × (read_at (block_or_nil b.buf) off (length q) ≡ some q))
      × ((b' : Skbuffer M) × (clear lock unlock (some b) ≡ some b')
          × IsValid b'
          × SameFrame b b'
          × (contents b' ≡ []))
asks-contents lock unlock b balanced v = (
  datasize-length lock unlock b balanced v,
  empty-length lock unlock b balanced v,
  read_pos-contents lock unlock b balanced v,
  clear-nil lock unlock b balanced v,
)

-- `zbaselib_skbuffer_create` of a size below 2^30, where both calls of calloc succeed, makes a valid
-- buffer that holds nothing, with a block of that size (128 bytes for 0), a bound that is larger, and no
-- mutex where none is asked for.
create-IsValid :
    {M : Type 0} (sndbuf : Option ℤ) (new_mutex : Option M) (buf_size buf_max_size : ℕ)
    (islock sock : ℤ)
    → buf_size < 2 ^ 30
    → (b : Skbuffer M) × (create true true sndbuf new_mutex buf_size buf_max_size islock sock
        ≡ some b)
      × IsValid b
      × (contents b ≡ [])
      × (b.buf_size ≡ (if buf_size == 0 then 128 else buf_size))
      × (b.buf_size < b.buf_max_size)
      × (islock ≡ pos 0 → b.mutex ≡ none)
unfolding create contents span
create-IsValid sndbuf new_mutex buf_size buf_max_size islock sock small =
    let size : ℕ = if buf_size == 0 then 128 else buf_size in
    (
      _,
      refl,
      record {
        allocated = refl;
        block_size = length-replicate size 0;
        wpos_eq = refl;
        wpos_in = omega arith;
        small = ground arith;
      },
      refl,
      refl,
      ground arith,
      λ e. ground (arith, e),
    )
