-- ===== src/Md5/Digest.antt =====
-- zbaselib_md5.c: the last block of `final`, and the digest by the code's own rounds.
use zbaselib.Prelude.{
  ℕ, zero, suc, ◌+◌, ◌-◌, ◌*◌, ◌/◌, ◌%◌, ◌^◌, ◌≤◌, ◌≡◌, refl, sym, ap, ◌∙◌, some, List, ◌∷◌, ◌++◌,
  arith, length, take, length-append, length-replicate, replicate, append_assoc, take_all, ltb,
  if◌then◌else◌,
}
use zbaselib.Prelude.Lists
use zbaselib.Prelude.Block.{splice, write_at, write_at-ok, length-splice}
use zbaselib.Md5.Steps.{Regs}
use zbaselib.Md5.Defs.{Md5, init_regs, low_bytes, finish}
use zbaselib.Md5.Blocks.{blocks, body-blocks}
use zbaselib.Md5.Absorb.{splice-front}

-- The bytes that pad a message of `n` bytes: 0x80, zeros up to 56 bytes behind the last block, and the
-- number of bits.
unfoldable pub pad : ℕ → List ℕ
pad n =
    128
    ∷ (replicate (if ltb (n % 64) 56 then 55 - n % 64 else 119 - n % 64) 0
        ++ low_bytes 8 (n * 8 % 2 ^ 64))

unfoldable pub bytes_of : Regs → List ℕ
bytes_of regs = low_bytes 4 regs.a ++ low_bytes 4 regs.b ++ low_bytes 4 regs.c ++ low_bytes 4 regs.d

unfoldable pub digest_by_blocks : List ℕ → List ℕ
digest_by_blocks msg =
    let padded : List ℕ = msg ++ pad (length msg) in
    bytes_of (blocks (length padded / 64) init_regs padded)

abbrev pub wiped : Md5
wiped = record { bytes = 0; regs = record { a = 0; b = 0; c = 0; d = 0 }; buffer = replicate 64 0 }

pub length-low_bytes : (k n : ℕ) → length (low_bytes k n) ≡ k
unfolding low_bytes
length-low_bytes zero n = refl
length-low_bytes (suc k) n = ap suc (length-low_bytes k (n / 256))

pub zeros_add : (z m n : ℕ) → replicate m z ++ replicate n z ≡ replicate (m + n) z
unfolding Lists.replicate
zeros_add z zero n = rw (let e : zero + n ≡ n = omega arith in e) refl
zeros_add z (suc m) n =
    rw (let e : suc m + n ≡ suc (m + n) = omega arith in e) (ap (λ r. z ∷ r) (zeros_add z m n))

-- A write at the end of the bytes `xs` in front of a block.
pub write_behind :
    (mem xs ys : List ℕ) (k : ℕ)
    → length xs ≡ k
    → take k mem ≡ xs
    → k + length ys ≤ length mem
    → (mem' : List ℕ) × (write_at mem k ys ≡ some mem')
      × (length mem' ≡ length mem)
      × (take (k + length ys) mem' ≡ xs ++ ys)
write_behind mem xs ys k e front room = (
  splice mem k ys,
  write_at-ok mem k ys room,
  length-splice mem k ys room,
  ap (λ n. take n (splice mem k ys)) (sym (length-append xs ys ∙ ap (λ n. n + length ys) e))
      ∙ ap (λ n. take (length (xs ++ ys)) (splice mem n ys)) (sym e)
      ∙ splice-front mem xs ys (ap (λ n. take n mem) e ∙ front),
)

-- The last block, with the bytes `xs` in front of it.
pub finish-blocks :
    (ctx : Md5) (xs : List ℕ) (used : ℕ)
    → length xs ≡ used
    → take used ctx.buffer ≡ xs
    → used ≤ 56
    → length ctx.buffer ≡ 64
    → finish ctx used
      ≡ some (
        bytes_of (
            blocks 1 ctx.regs
              (xs ++ (replicate (56 - used) 0 ++ low_bytes 8 (ctx.bytes * 8 % 2 ^ 64)))),
        wiped,
      )
unfolding finish bytes_of
finish-blocks ctx xs used e front le size =
    let zeros : List ℕ = replicate (56 - used) 0 in
    let low : List ℕ = low_bytes 8 (ctx.bytes * 8 % 2 ^ 64) in
    let lz : length zeros ≡ 56 - used = length-replicate (56 - used) (let z : ℕ = 0 in z) in
    let ll : length low ≡ 8 = length-low_bytes 8 (ctx.bytes * 8 % 2 ^ 64) in
    let (m1, w1, s1, f1) = write_behind ctx.buffer xs zeros used e front (omega (arith, lz)) in
    let to56 : 56 ≡ used + length zeros = omega (arith, lz) in
    let f1' : take 56 m1 ≡ xs ++ zeros = ap (λ n. take n m1) to56 ∙ f1 in
    let to64 : 64 ≡ 56 + length low = omega (arith, ll) in
    let (m2, w2, s2, f2) =
      write_behind m1 (xs ++ zeros) low 56 (omega (arith, length-append xs zeros, lz)) f1'
        (omega (arith, ll, s1)) in
    let whole : m2 ≡ xs ++ (zeros ++ low) =
      sym (take_all 64 m2 (omega (arith, s1, s2)))
      ∙ ap (λ n. take n m2) to64
      ∙ f2
      ∙ append_assoc xs zeros low in
    let count : 64 - used - 8 ≡ 56 - used = omega arith in
    let ran = body-blocks 1 ctx.regs m2 (omega (arith, s1, s2)) in
    ground (arith, w1, w2, ran, whole, count)
