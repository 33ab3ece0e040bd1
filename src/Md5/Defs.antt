-- ===== src/Md5/Defs.antt =====
-- zbaselib_md5.c: the MD5 digest. Words are numbers below 2^32, bytes numbers below 2^8.
use zbaselib.Prelude.{
  ℕ, zero, suc, ◌+◌, ◌-◌, ◌*◌, ◌/◌, ◌%◌, ◌^◌, Option, some, List, [], ◌∷◌, ◌++◌, ◌>>=◌, ltb, leb,
  if◌then◌else◌, drop, replicate,
}
use zbaselib.Prelude.Block.{read_at, write_at}
use zbaselib.Md5.Steps.{Regs, compress}

-- `zbaselib_md5_t`, with the four words a, b, c and d in `regs`
pub record Md5 : Type 0 where
  pub bytes : ℕ
  pub regs : Regs
  pub buffer : List ℕ

abbrev pub init_regs : Regs
init_regs = record { a = 1732584193; b = 4023233417; c = 2562383102; d = 271733878 }

unfoldable pub init : Md5 → Md5
init ctx = record ctx { regs = init_regs; bytes = 0 }

-- `zbaselib_md5_body` on `k` blocks of 64 bytes: the words, and the data behind the blocks. It is
-- called with a size of 64 * k for a k above 0, where its loop runs k times.
unfoldable pub body : Regs → List ℕ → (k : ℕ) → Option (Regs × List ℕ)
body regs source zero = some (regs, source)
body regs source (suc k) = do
  block ← read_at source 0 64
  body (compress regs block) (drop 64 source) k

-- The last copy of `update`.
unfoldable pub keep : Md5 → List ℕ → ℕ → Option Md5
keep ctx source size = do
  bytes ← read_at source 0 size
  buffer ← write_at ctx.buffer 0 bytes
  some (record ctx { buffer = buffer })

-- `update` from the test `size >= 64` on.
unfoldable pub update_blocks : Md5 → List ℕ → ℕ → Option Md5
unfolding body keep
update_blocks ctx source size =
    if leb 64 size
    then (do
      (regs, rest) ← body ctx.regs source (size / 64)
      keep (record ctx { regs = regs }) rest (size % 64))
    else keep ctx source size

-- `update` with `used` bytes in the buffer, `used` above 0.
unfoldable pub update_used : Md5 → ℕ → List ℕ → ℕ → Option Md5
unfolding body update_blocks
update_used ctx used source size =
    if ltb size (64 - used)
    then (do
      bytes ← read_at source 0 size
      buffer ← write_at ctx.buffer used bytes
      some (record ctx { buffer = buffer }))
    else (do
      bytes ← read_at source 0 (64 - used)
      buffer ← write_at ctx.buffer used bytes
      (regs, rest) ← body ctx.regs buffer 1
      update_blocks (record ctx { regs = regs; buffer = buffer }) (drop (64 - used) source)
          (size - (64 - used)))

unfoldable pub update : Md5 → List ℕ → ℕ → Option Md5
unfolding update_used update_blocks
update ctx source size =
    let ctx' : Md5 = record ctx { bytes = (ctx.bytes + size) % 2 ^ 64 } in
    if ltb 0 (ctx.bytes % 64)
    then update_used ctx' (ctx.bytes % 64) source size
    else update_blocks ctx' source size

-- The `k` low bytes of a number, the lowest first.
unfoldable pub low_bytes : (k : ℕ) → ℕ → List ℕ
low_bytes zero n = []
low_bytes (suc k) n = n % 256 ∷ low_bytes k (n / 256)

-- The last block of `final`, from the byte `used` on, and the result.
unfoldable pub finish : Md5 → ℕ → Option (List ℕ × Md5)
unfolding body low_bytes
finish ctx used = do
  padded ← write_at ctx.buffer used (replicate (64 - used - 8) 0)
  buffer ← write_at padded 56 (low_bytes 8 (ctx.bytes * 8 % 2 ^ 64))
  (regs, rest) ← body ctx.regs buffer 1
  some (
    low_bytes 4 regs.a ++ low_bytes 4 regs.b ++ low_bytes 4 regs.c ++ low_bytes 4 regs.d,
    record { bytes = 0; regs = record { a = 0; b = 0; c = 0; d = 0 }; buffer = replicate 64 0 },
  )

-- The result and the context after the call.
unfoldable pub final : Md5 → Option (List ℕ × Md5)
unfolding body finish
final ctx = do
  let used = ctx.bytes % 64 + 1
  buffer ← write_at ctx.buffer (ctx.bytes % 64) (128 ∷ [])
  if ltb (64 - used) 8
      then (do
        padded ← write_at buffer used (replicate (64 - used) 0)
        (regs, rest) ← body ctx.regs padded 1
        finish (record ctx { regs = regs; buffer = padded }) 0)
      else finish (record ctx { buffer = buffer }) used
