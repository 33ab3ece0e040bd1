-- ===== src/Md5/Final.antt =====
-- zbaselib_md5.c: the call `final` on a context that stands for a message.
use zbaselib.Prelude.{
  ℕ, ◌+◌, ◌-◌, ◌*◌, ◌/◌, ◌%◌, ◌^◌, ◌≤◌, ◌<◌, ◌≡◌, refl, sym, ap, ◌∙◌, some, List, [], ◌∷◌, ◌++◌,
  arith, length, take, drop, length-append, length-replicate, replicate, append_assoc, take_all,
  ltb, if◌then◌else◌, Bool-cases, inl, inr,
}
use zbaselib.Prelude.Block.{write_at}
use zbaselib.Md5.Steps.{Regs}
use zbaselib.Md5.Defs.{Md5, init_regs, body, low_bytes, finish, final}
use zbaselib.Md5.Blocks.{blocks, body-blocks, blocks-append, Placed, Holds}
use zbaselib.Md5.Meets.{digest_by_blocks-digest}
use zbaselib.Md5.Rfc.{digest}
use zbaselib.Md5.Digest.{
  pad, bytes_of, digest_by_blocks, wiped, length-low_bytes, zeros_add, write_behind, finish-blocks,
}

abbrev bits : Md5 → List ℕ
bits ctx = low_bytes 8 (ctx.bytes * 8 % 2 ^ 64)

-- Fewer than 56 bytes in the buffer: the padding fits behind them.
final-near :
    (ctx : Md5) (held : List ℕ)
    → ctx.bytes % 64 ≡ length held
    → length held < 56
    → take (length held) ctx.buffer ≡ held
    → length ctx.buffer ≡ 64
    → final ctx
      ≡ some (
        bytes_of (blocks 1 ctx.regs (held ++ 128 ∷ (replicate (55 - length held) 0 ++ bits ctx))),
        wiped,
      )
unfolding final
final-near ctx held e near front size =
    let u : ℕ = length held in
    let (m, w, s, f) = write_behind ctx.buffer held (128 ∷ []) u refl front (omega arith) in
    let len : length (held ++ 128 ∷ []) ≡ u + 1 = length-append held (128 ∷ []) in
    let last =
      finish-blocks (record ctx { buffer = m }) (held ++ 128 ∷ []) (u + 1) len f (omega arith)
        (omega (arith, s)) in
    let count : 56 - (u + 1) ≡ 55 - u = omega arith in
    ground (arith, w, last, count, append_assoc held (128 ∷ []) (replicate (55 - u) 0 ++ bits ctx))

final-far_run :
    (ctx : Md5) (held : List ℕ) (u : ℕ) (m m' : List ℕ)
    → ctx.bytes % 64 ≡ u
    → 56 ≤ u
    → u < 64
    → write_at ctx.buffer u (128 ∷ []) ≡ some m
    → write_at m (u + 1) (replicate (64 - (u + 1)) 0) ≡ some m'
    → body ctx.regs m' 1 ≡ some (blocks 1 ctx.regs m', drop (64 * 1) m')
    → final ctx ≡ finish (record ctx { regs = blocks 1 ctx.regs m'; buffer = m' }) 0
unfolding final
final-far_run ctx held u m m' e far lt w w' ran = ground (arith, w, w', ran)

far_padding :
    (ctx : Md5) (held : List ℕ)
    → 56 ≤ length held
    → length held < 64
    → (m : List ℕ) → m ≡ (held ++ 128 ∷ []) ++ replicate (63 - length held) 0
    → m ++ (replicate 56 0 ++ bits ctx)
      ≡ held ++ 128 ∷ (replicate (119 - length held) 0 ++ bits ctx)
far_padding ctx held far lt m block =
    let u : ℕ = length held in
    let zeros : List ℕ = replicate (63 - u) 0 in
    let sum : (63 - u) + 56 ≡ 119 - u = omega arith in
    let both : zeros ++ (replicate 56 0 ++ bits ctx) ≡ replicate (119 - u) 0 ++ bits ctx =
      sym (append_assoc zeros (replicate 56 0) (bits ctx))
      ∙ ap (λ z. z ++ bits ctx) (zeros_add 0 (63 - u) 56 ∙ ap (λ n. replicate n 0) sum) in
    ap (λ z. z ++ (replicate 56 0 ++ bits ctx)) block
    ∙ append_assoc (held ++ 128 ∷ []) zeros (replicate 56 0 ++ bits ctx)
    ∙ append_assoc held (128 ∷ []) (zeros ++ (replicate 56 0 ++ bits ctx))
    ∙ ap (λ z. held ++ 128 ∷ z) both

-- At least 56 bytes in the buffer: a block of padding follows.
final-far :
    (ctx : Md5) (held : List ℕ)
    → ctx.bytes % 64 ≡ length held
    → 56 ≤ length held
    → length held < 64
    → take (length held) ctx.buffer ≡ held
    → length ctx.buffer ≡ 64
    → final ctx
      ≡ some (
        bytes_of (blocks 2 ctx.regs (held ++ 128 ∷ (replicate (119 - length held) 0 ++ bits ctx))),
        wiped,
      )
unfolding final
final-far ctx held e far lt front size =
    let u : ℕ = length held in
    let one : List ℕ = held ++ 128 ∷ [] in
    let zeros : List ℕ = replicate (63 - u) 0 in
    let lz : length zeros ≡ 63 - u = length-replicate (63 - u) (let z : ℕ = 0 in z) in
    let (m, w, s, f) = write_behind ctx.buffer held (128 ∷ []) u refl front (omega arith) in
    let len : length one ≡ u + 1 = length-append held (128 ∷ []) in
    let (m', w', s', f') = write_behind m one zeros (u + 1) len f (omega (arith, s, lz)) in
    let to64 : 64 ≡ (u + 1) + length zeros = omega (arith, lz) in
    let block : m' ≡ one ++ zeros =
      sym (take_all 64 m' (omega (arith, s, s'))) ∙ ap (λ n. take n m') to64 ∙ f' in
    let regs' : Regs = blocks 1 ctx.regs m' in
    let ran = body-blocks 1 ctx.regs m' (omega (arith, s, s')) in
    let last =
      finish-blocks (record ctx { regs = regs'; buffer = m' }) [] 0 refl refl (omega arith)
        (omega (arith, s, s')) in
    let left : 64 - (u + 1) ≡ 63 - u = omega arith in
    final-far_run ctx held u m m' e far lt w
      (ap (λ n. write_at m (u + 1) (replicate n 0)) left ∙ w') ran
    ∙ last
    ∙ ap (λ r. some (bytes_of r, wiped))
        (sym (blocks-append 1 1 ctx.regs m' (replicate 56 0 ++ bits ctx) (omega (arith, s, s')))
          ∙ ap (blocks 2 ctx.regs) (far_padding ctx held far lt m' block))

by_blocks_last :
    (msg whole held : List ℕ) (count c : ℕ)
    → whole ++ held ≡ msg
    → length whole ≡ 64 * count
    → length (held ++ pad (length msg)) ≡ 64 * c
    → digest_by_blocks msg
      ≡ bytes_of (blocks c (blocks count init_regs whole) (held ++ pad (length msg)))
unfolding digest_by_blocks
by_blocks_last msg whole held count c split size len =
    let last : List ℕ = held ++ pad (length msg) in
    let same : msg ++ pad (length msg) ≡ whole ++ last =
      ap (λ z. z ++ pad (length msg)) (sym split) ∙ append_assoc whole held (pad (length msg)) in
    let number : length (msg ++ pad (length msg)) / 64 ≡ count + c =
      ap (λ z. length z / 64) same ∙ omega (arith, length-append whole last, size, len) in
    ap (λ z. bytes_of (blocks (length (msg ++ pad (length msg)) / 64) init_regs z)) same
    ∙ ap (λ n. bytes_of (blocks n init_regs (whole ++ last))) number
    ∙ ap bytes_of (blocks-append count c init_regs whole last size)

pad-split :
    (ctx : Md5) (n k : ℕ)
    → (if ltb (n % 64) 56 then 55 - n % 64 else 119 - n % 64) ≡ k
    → bits ctx ≡ low_bytes 8 (n * 8 % 2 ^ 64)
    → pad n ≡ 128 ∷ (replicate k 0 ++ bits ctx)
unfolding pad
pad-split ctx n k e low =
    ap (λ k. 128 ∷ (replicate k 0 ++ low_bytes 8 (n * 8 % 2 ^ 64))) e
    ∙ ap (λ z. 128 ∷ (replicate k 0 ++ z)) (sym low)

-- From the padding of the held bytes to `c` blocks with `k` zeros.
digest_of_run :
    (ctx : Md5) (msg : List ℕ) (p : Placed ctx msg) (c k : ℕ)
    → pad (length msg) ≡ 128 ∷ (replicate k 0 ++ bits ctx)
    → length p.tail + k + 9 ≡ 64 * c
    → final ctx
      ≡ some (bytes_of (blocks c ctx.regs (p.tail ++ 128 ∷ (replicate k 0 ++ bits ctx))), wiped)
    → final ctx ≡ some (digest_by_blocks msg, wiped)
digest_of_run ctx msg p c k ends count run =
    let zeros : List ℕ = replicate k 0 in
    let lz : length zeros ≡ k = length-replicate k (let z : ℕ = 0 in z) in
    let ll : length (bits ctx) ≡ 8 = length-low_bytes 8 (ctx.bytes * 8 % 2 ^ 64) in
    let last : List ℕ = 128 ∷ (zeros ++ bits ctx) in
    let len : length (p.tail ++ last) ≡ 64 * c =
      omega (arith, length-append p.tail last, length-append zeros (bits ctx), lz, ll, count) in
    let len' : length (p.tail ++ pad (length msg)) ≡ 64 * c =
      ap (λ z. length (p.tail ++ z)) ends ∙ len in
    run
    ∙ ap (λ r. some (bytes_of r, wiped))
        (ap (λ r. blocks c r (p.tail ++ last)) p.regs_eq
          ∙ ap (λ z. blocks c (blocks p.count init_regs p.whole) (p.tail ++ z)) (sym ends))
    ∙ ap (λ r. some (r, wiped))
        (sym (by_blocks_last msg p.whole p.tail p.count c p.split p.whole_size len'))

-- The digest by the code's own rounds.
final-by_blocks :
    (ctx : Md5) (msg : List ℕ) → Holds ctx msg → final ctx ≡ some (digest_by_blocks msg, wiped)
final-by_blocks ctx msg h =
    let p : Placed ctx msg = h.placed in
    let u : ℕ = length p.tail in
    let size : length msg ≡ 64 * p.count + u =
      ap length (sym p.split) ∙ length-append p.whole p.tail ∙ ap (λ k. k + u) p.whole_size in
    let used : ctx.bytes % 64 ≡ u = omega (arith, h.bytes_eq, size, p.tail_size) in
    let total : ctx.bytes * 8 % 2 ^ 64 ≡ length msg * 8 % 2 ^ 64 = omega (arith, h.bytes_eq) in
    let low : bits ctx ≡ low_bytes 8 (length msg * 8 % 2 ^ 64) = ap (low_bytes 8) total in
    let modulo : length msg % 64 ≡ u = omega (arith, size, p.tail_size) in
    elim (Bool-cases (ltb u 56)) [
      | inl near ↦
          let k : (if ltb (length msg % 64) 56 then 55 - length msg % 64 else 119 - length msg % 64)
              ≡ 55 - u =
            ground (arith, modulo, near) in
          let few : u < 56 = ground (arith, near) in
          digest_of_run ctx msg p 1 (55 - u) (pad-split ctx (length msg) (55 - u) k low)
            (omega arith) (final-near ctx p.tail used few p.in_front p.buffer_size)
      | inr far ↦
          let k : (if ltb (length msg % 64) 56 then 55 - length msg % 64 else 119 - length msg % 64)
              ≡ 119 - u =
            ground (arith, modulo, far) in
          let many : 56 ≤ u = ground (arith, far) in
          digest_of_run ctx msg p 2 (119 - u) (pad-split ctx (length msg) (119 - u) k low)
            (omega (arith, p.tail_size))
            (final-far ctx p.tail used many p.tail_size p.in_front p.buffer_size)
    ]

-- `zbaselib_md5_final` of a context that stands for a message returns the MD5 digest of the message and wipes the
-- context; the digest is the one of a description of its own after RFC 1321, with the four words to start from,
-- the table of sines, the order of the words, the shifts and the functions F, G, H and I written out anew.
pub final-digest : (ctx : Md5) (msg : List ℕ) → Holds ctx msg → final ctx ≡ some (digest msg, wiped)
final-digest ctx msg h =
    final-by_blocks ctx msg h ∙ ap (λ l. some (l, wiped)) (digest_by_blocks-digest msg)
