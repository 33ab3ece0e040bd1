-- ===== src/Md5/Absorb.antt =====
-- zbaselib_md5.c: the two parts of `update`, with bytes in the buffer and without.
use zbaselib.Prelude.{
  ℕ, ◌+◌, ◌-◌, ◌*◌, ◌/◌, ◌%◌, ◌≤◌, ◌<◌, ◌≡◌, refl, sym, ap, ◌∙◌, subst, some, List, ◌++◌, arith,
  length, take, drop, length-drop, length-take, length-append, take-append_exact, take-append-drop,
  append_assoc, take_all, ltb, leb, inl, inr, Bool-cases,
}
use zbaselib.Prelude.Block.{splice, read_at-ok, write_at-ok, length-splice, take-splice_front}
use zbaselib.Md5.Steps.{Regs}
use zbaselib.Md5.Defs.{Md5, init_regs, keep, update_blocks, update_used}
use zbaselib.Md5.Blocks.{blocks, body-blocks, blocks-append, blocks-take, Placed}

keep-ok :
    (ctx : Md5) (xs : List ℕ) (n : ℕ)
    → length xs ≡ n
    → n < 64
    → length ctx.buffer ≡ 64
    → keep ctx xs n ≡ some (record ctx { buffer = splice ctx.buffer 0 xs })
unfolding keep
keep-ok ctx xs n e lt size =
    ground (arith, read_at-ok xs 0 n, write_at-ok ctx.buffer 0 xs, take_all n xs)

pub update_blocks-Placed :
    (ctx : Md5) (whole xs : List ℕ) (count : ℕ)
    → length whole ≡ 64 * count
    → ctx.regs ≡ blocks count init_regs whole
    → length ctx.buffer ≡ 64
    → (ctx' : Md5) × (update_blocks ctx xs (length xs) ≡ some ctx')
      × Placed ctx' (whole ++ xs)
      × (ctx'.bytes ≡ ctx.bytes)
unfolding update_blocks
update_blocks-Placed ctx whole xs count we re be = elim (Bool-cases (leb 64 (length xs))) [
  | inr small ↦ (
    record ctx { buffer = splice ctx.buffer 0 xs },
    ground (arith, keep-ok ctx xs (length xs) refl),
    record {
      whole = whole;
      tail = xs;
      count = count;
      split = refl;
      whole_size = we;
      tail_size = ground arith;
      regs_eq = re;
      buffer_size = ground (arith, length-splice ctx.buffer 0 xs);
      in_front = take-splice_front ctx.buffer xs;
    },
    refl,
  )
  | inl big ↦
      let k : ℕ = length xs / 64 in
      let front : List ℕ = take (64 * k) xs in
      let rest : List ℕ = drop (64 * k) xs in
      let full : length front ≡ 64 * k = ground (arith, length-take (64 * k) xs) in
      let left : length rest ≡ length xs % 64 = ground (arith, length-drop (64 * k) xs) in
      let regs' : Regs = blocks k ctx.regs xs in
      (
        record ctx { regs = regs'; buffer = splice ctx.buffer 0 rest },
        ground (
          arith,
          body-blocks k ctx.regs xs,
          keep-ok (record ctx { regs = regs' }) rest (length xs % 64) left,
        ),
        record {
          whole = whole ++ front;
          tail = rest;
          count = count + k;
          split =
              append_assoc whole front rest ∙ ap (λ z. whole ++ z) (take-append-drop (64 * k) xs);
          whole_size = omega (arith, length-append whole front, full);
          tail_size = ground (arith, left);
          regs_eq =
              ap (λ r. blocks k r xs) re
              ∙ blocks-take k (blocks count init_regs whole) xs full
              ∙ sym (blocks-append count k init_regs whole front we);
          buffer_size = ground (arith, length-splice ctx.buffer 0 rest);
          in_front = take-splice_front ctx.buffer rest;
        },
        refl,
      )
]

-- A write behind bytes that stand in front of a block puts its bytes after them.
pub splice-front :
    (mem xs ys : List ℕ)
    → take (length xs) mem ≡ xs
    → take (length (xs ++ ys)) (splice mem (length xs) ys) ≡ xs ++ ys
unfolding splice
splice-front mem xs ys h =
    let r : List ℕ = drop (length xs + length ys) mem in
    ap (take (length (xs ++ ys))) (ap (λ z. z ++ (ys ++ r)) h ∙ sym (append_assoc xs ys r))
    ∙ take-append_exact (xs ++ ys) r

-- Data that fill the buffer: its block is worked off, and `update` goes on with the rest.
update_used-filled :
    (ctx : Md5) (u : ℕ) (xs : List ℕ)
    → u < 64
    → 64 - u ≤ length xs
    → length ctx.buffer ≡ 64
    → let blk : List ℕ = splice ctx.buffer u (take (64 - u) xs) in
      update_used ctx u xs (length xs)
      ≡ update_blocks
          (record ctx { regs = blocks 1 ctx.regs blk; buffer = blk })
          (drop (64 - u) xs)
          (length (drop (64 - u) xs))
unfolding update_used
update_used-filled ctx u xs lt many size = ground (
  arith,
  read_at-ok xs 0 (64 - u),
  write_at-ok ctx.buffer u (take (64 - u) xs),
  length-take (64 - u) xs,
  length-splice ctx.buffer u (take (64 - u) xs),
  body-blocks 1 ctx.regs (splice ctx.buffer u (take (64 - u) xs)),
  length-drop (64 - u) xs,
)

regroup : (ws ts xs : List ℕ) (n : ℕ) → (ws ++ (ts ++ take n xs)) ++ drop n xs ≡ (ws ++ ts) ++ xs
regroup ws ts xs n =
    append_assoc ws (ts ++ take n xs) (drop n xs)
    ∙ ap (λ z. ws ++ z)
        (append_assoc ts (take n xs) (drop n xs) ∙ ap (λ z. ts ++ z) (take-append-drop n xs))
    ∙ sym (append_assoc ws ts xs)

-- With bytes in the buffer.
pub update_used-Placed :
    (ctx : Md5) (msg xs : List ℕ) (p : Placed ctx msg)
    → 0 < length p.tail
    → (ctx' : Md5) × (update_used ctx (length p.tail) xs (length xs) ≡ some ctx')
      × Placed ctx' (msg ++ xs)
      × (ctx'.bytes ≡ ctx.bytes)
unfolding update_used
update_used-Placed ctx msg xs p used = elim (Bool-cases (ltb (length xs) (64 - length p.tail))) [
  | inl few ↦
      let u : ℕ = length p.tail in
      let buffer' : List ℕ = splice ctx.buffer u xs in
      (
        record ctx { buffer = buffer' },
        ground (
          arith,
          read_at-ok xs 0 (length xs),
          write_at-ok ctx.buffer u xs,
          take_all (length xs) xs,
          p.buffer_size,
        ),
        record {
          whole = p.whole;
          tail = p.tail ++ xs;
          count = p.count;
          split = sym (append_assoc p.whole p.tail xs) ∙ ap (λ z. z ++ xs) p.split;
          whole_size = p.whole_size;
          tail_size = ground (arith, length-append p.tail xs);
          regs_eq = p.regs_eq;
          buffer_size = ground (arith, p.buffer_size, length-splice ctx.buffer u xs);
          in_front = splice-front ctx.buffer p.tail xs p.in_front;
        },
        refl,
      )
  | inr many ↦
      let u : ℕ = length p.tail in
      let front : List ℕ = take (64 - u) xs in
      let rest : List ℕ = drop (64 - u) xs in
      let blk : List ℕ = splice ctx.buffer u front in
      let short : length front ≡ 64 - u = ground (arith, length-take (64 - u) xs) in
      let full : length (p.tail ++ front) ≡ 64 =
        ground (arith, length-append p.tail front, p.tail_size) in
      let size : length blk ≡ 64 =
        ground (arith, length-splice ctx.buffer u front, p.buffer_size, p.tail_size) in
      let same : blk ≡ p.tail ++ front =
        sym (take_all 64 blk (omega arith))
        ∙ ap (λ n. take n blk) (sym full)
        ∙ splice-front ctx.buffer p.tail front p.in_front in
      let regs' : Regs = blocks 1 ctx.regs blk in
      let whole' : List ℕ = p.whole ++ (p.tail ++ front) in
      let worked : regs' ≡ blocks (p.count + 1) init_regs whole' =
        ap (λ r. blocks 1 r blk) p.regs_eq
        ∙ ap (blocks 1 (blocks p.count init_regs p.whole)) same
        ∙ sym (blocks-append p.count 1 init_regs p.whole (p.tail ++ front) p.whole_size) in
      let (ctx', run, p', b) =
        update_blocks-Placed (record ctx { regs = regs'; buffer = blk }) whole' rest (p.count + 1)
          (omega (arith, length-append p.whole (p.tail ++ front), full, p.whole_size)) worked
          size in
      let all : whole' ++ rest ≡ msg ++ xs =
        regroup p.whole p.tail xs (64 - u) ∙ ap (λ z. z ++ xs) p.split in
      (
        ctx',
        update_used-filled ctx u xs p.tail_size (ground arith) p.buffer_size ∙ run,
        subst (Placed ctx') all p',
        b,
      )
]
