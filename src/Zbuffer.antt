-- ===== src/Zbuffer.antt =====
-- zbaselib_buffer.c, `zbuffer_t`: a block of bytes with the count of those in use.
use zbaselib.Prelude.{
  ℕ, ◌+◌, ◌-◌, ◌*◌, ◌^◌, ◌≤◌, ◌<◌, ◌≡◌, refl, Bool, true, false, Option, none, some, List, [], ◌++◌,
  arith, ◌>>=◌, if◌then◌else◌, ltb, leb, length, take, replicate, length-replicate, length-append,
  length-take,
}
use zbaselib.Prelude.Int.{ℤ, pos, negsuc, lt_int, to_size}
use zbaselib.Prelude.Block.{read_at, write_at, splice, read_at-ok, write_at-ok, length-splice}
pub mod Fill
mod Tests

-- `struct zbuffer_s`
pub record Zbuffer : Type 0 where
  pub buf : Option (List ℕ)
  pub data_size : ℤ
  pub buf_size : ℤ

-- `memcpy(buf, source, size)`, where either pointer may be NULL
unfoldable pub copy_to : Option (List ℕ) → Option (List ℕ) → ℤ → Option (Option (List ℕ))
copy_to (some mem) (some source) size = do
  bytes ← read_at source 0 (to_size size)
  mem' ← write_at mem 0 bytes
  some (some mem')
copy_to _ _ size = none

-- `thiz_ok` and `block_ok` tell whether the two calls of calloc succeed. The outer option is a fault.
unfoldable pub zbuffer_new :
    (thiz_ok block_ok : Bool) → Option (List ℕ) → ℤ → ℤ → Option (Option Zbuffer)
zbuffer_new false block_ok source data_size buf_size = some none
zbuffer_new true block_ok source data_size buf_size =
    let at_least_one = if lt_int buf_size (pos 1) then pos 1 else buf_size in
    let size = if lt_int at_least_one data_size then data_size else at_least_one in
    let block = if block_ok then some (replicate (to_size size) 0) else none in
    elim source [
      | none ↦ some (some (record { buf = block; data_size = pos 0; buf_size = size }))
      | some bytes ↦ (do
        block' ← copy_to block (some bytes) data_size
        some (some (record { buf = block'; data_size = data_size; buf_size = size })))
    ]

-- `fill` is what realloc finds behind the old bytes, or nothing if it fails.
unfoldable pub grow : Zbuffer → Option (List ℕ) → ℤ → Zbuffer
grow zbuf fill data_size =
    if lt_int zbuf.buf_size data_size
    then record zbuf {
      buf_size = data_size;
      buf = elim fill [
        | none ↦ none
        | some tail ↦ elim zbuf.buf [ none ↦ some tail | some mem ↦ some (mem ++ tail) ]
      ];
    }
    else zbuf

unfoldable pub zbuffer_set :
    Option Zbuffer → Option (List ℕ) → Option (List ℕ) → ℤ → Option (ℤ × Option Zbuffer)
unfolding grow
zbuffer_set none fill source data_size = some (negsuc 0, none)
zbuffer_set (some zbuf) fill none data_size =
    some (pos 0, some (record (grow zbuf fill data_size) { data_size = data_size }))
zbuffer_set (some zbuf) fill (some bytes) data_size = do
  let zbuf' = grow zbuf fill data_size
  block ← copy_to zbuf'.buf (some bytes) data_size
  some (pos 0, some (record zbuf' { buf = block; data_size = data_size }))

-- The block has `size` cells, and the first `used` hold the bytes in use.
pub record Holds (z : Zbuffer) (size : ℕ) (bytes : List ℕ) : Type 0 where
  pub block : List ℕ
  pub allocated : z.buf ≡ some block
  pub block_size : length block ≡ size
  pub buf_size_eq : z.buf_size ≡ pos size
  pub data_size_eq : z.data_size ≡ pos (length bytes)
  pub in_front : take (length bytes) block ≡ bytes
