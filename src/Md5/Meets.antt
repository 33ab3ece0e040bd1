-- ===== src/Md5/Meets.antt =====
-- zbaselib_md5.c: the digest by the code's own rounds is the one of RFC 1321.
use native.Mathlib.Nat.{div-div-eq-div-mul}
use native.Mathlib.Omega.{pow_step}
use zbaselib.Prelude.{
  ℕ, zero, suc, ◌-◌, ◌*◌, ◌/◌, ◌%◌, ◌^◌, List, ◌∷◌, ◌++◌, ◌≡◌, refl, sym, ap, ◌∙◌, arith, length,
  replicate, ltb, if◌then◌else◌,
}
use zbaselib.Md5.Steps.{Regs}
use zbaselib.Md5.Defs.{init_regs, low_bytes}
use zbaselib.Md5.Blocks.{blocks}
use zbaselib.Md5.Digest.{pad, bytes_of, digest_by_blocks}
use zbaselib.Md5.Rfc.{process, start, little_endian, padding, result_of, digest}
use zbaselib.Md5.Rounds.{process-blocks, start-Narrow, start-init_regs}

low_bytes-from : (k i n : ℕ) → little_endian i k n ≡ low_bytes k (n / 256 ^ i)
unfolding little_endian low_bytes
low_bytes-from zero i n = refl
low_bytes-from (suc k) i n =
    let next : n / 256 ^ suc i ≡ n / 256 ^ i / 256 =
      ap (λ p. n / p) (omega (arith, pow_step 256 i)) ∙ sym (div-div-eq-div-mul n (256 ^ i) 256) in
    ap (λ l. n / 256 ^ i % 256 ∷ l) (low_bytes-from k (suc i) n ∙ ap (low_bytes k) next)

little_endian-low_bytes : (k n : ℕ) → little_endian 0 k n ≡ low_bytes k n
little_endian-low_bytes k n = low_bytes-from k 0 n ∙ ap (low_bytes k) (omega arith)

padding-pad : (n : ℕ) → padding n ≡ pad n
unfolding padding pad
padding-pad n =
    ap (λ l. 128 ∷ (replicate (if ltb (n % 64) 56 then 55 - n % 64 else 119 - n % 64) 0 ++ l))
      (little_endian-low_bytes 8 (n * 8 % 2 ^ 64))

result_of-bytes : (r : Regs) → result_of r ≡ bytes_of r
unfolding result_of bytes_of low_bytes
result_of-bytes r =
    ap (λ l. l ++ (little_endian 0 4 r.b ++ little_endian 0 4 r.c ++ little_endian 0 4 r.d))
      (little_endian-low_bytes 4 r.a)
    ∙ ap (λ l. low_bytes 4 r.a ++ (l ++ little_endian 0 4 r.c ++ little_endian 0 4 r.d))
        (little_endian-low_bytes 4 r.b)
    ∙ ap (λ l. low_bytes 4 r.a ++ (low_bytes 4 r.b ++ l ++ little_endian 0 4 r.d))
        (little_endian-low_bytes 4 r.c)
    ∙ ap (λ l. low_bytes 4 r.a ++ (low_bytes 4 r.b ++ low_bytes 4 r.c ++ l))
        (little_endian-low_bytes 4 r.d)

-- The digest by the code's own rounds is that of RFC 1321.
pub digest_by_blocks-digest : (msg : List ℕ) → digest_by_blocks msg ≡ digest msg
unfolding digest digest_by_blocks
digest_by_blocks-digest msg =
    let padded : List ℕ = msg ++ pad (length msg) in
    sym (result_of-bytes (blocks (length padded / 64) init_regs padded))
    ∙ ap result_of (
        ap (λ q. blocks (length padded / 64) q padded) (sym start-init_regs)
        ∙ sym (process-blocks (length padded / 64) start padded start-Narrow))
    ∙ ap (λ l. result_of (process (length (msg ++ l) / 64) start (msg ++ l)))
        (sym (padding-pad (length msg)))
