-- ===== src/Md5/Update.antt =====
-- zbaselib_md5.c: `update` adds its data to the message that a context stands for.
use zbaselib.Prelude.{
  ℕ, ◌+◌, ◌*◌, ◌%◌, ◌^◌, ◌<◌, ◌≡◌, refl, sym, ap, ◌∙◌, some, List, [], ◌∷◌, ◌++◌, arith, length,
  length-append, append-nil, ltb, if◌then◌else◌, inl, inr, Bool-cases,
}
use zbaselib.Md5.Defs.{Md5, init_regs, init, update_blocks, update_used, update}
use zbaselib.Md5.Blocks.{blocks, Placed, Holds}
use zbaselib.Md5.Absorb.{update_blocks-Placed, update_used-Placed}

no_tail : (ws ts msg : List ℕ) → length ts ≡ 0 → ws ++ ts ≡ msg → ws ≡ msg
no_tail ws [] msg e split = sym (append-nil ws) ∙ split
no_tail ws (t ∷ ts) msg e split = absurd (omega arith)

-- The context with the bytes of the data counted.
abbrev counted : Md5 → ℕ → Md5
counted ctx n = record ctx { bytes = (ctx.bytes + n) % 2 ^ 64 }

update-start :
    (ctx : Md5) (xs : List ℕ) (n u : ℕ)
    → ctx.bytes % 64 ≡ u
    → update ctx xs n
      ≡ (if ltb 0 u then update_used (counted ctx n) u xs n else update_blocks (counted ctx n) xs n)
unfolding update
update-start ctx xs n u e =
    ap
      (λ u.
        if ltb 0 u then update_used (counted ctx n) u xs n else update_blocks (counted ctx n) xs n)
      e

abbrev counted-Placed :
    (ctx : Md5) (msg : List ℕ) (n : ℕ) → Placed ctx msg → Placed (counted ctx n) msg
counted-Placed ctx msg n p = record {
  whole = p.whole;
  tail = p.tail;
  count = p.count;
  split = p.split;
  whole_size = p.whole_size;
  tail_size = p.tail_size;
  regs_eq = p.regs_eq;
  buffer_size = p.buffer_size;
  in_front = p.in_front;
}

-- `zbaselib_md5_update` with any data leaves a context that stands for the message so far with the
-- data at its end, however the data lie across the blocks of 64 bytes.
pub update-Holds :
    (ctx : Md5) (msg xs : List ℕ)
    → Holds ctx msg
    → (ctx' : Md5) × (update ctx xs (length xs) ≡ some ctx') × Holds ctx' (msg ++ xs)
update-Holds ctx msg xs h =
    let p : Placed ctx msg = h.placed in
    let n : ℕ = length xs in
    let u : ℕ = length p.tail in
    let size : length msg ≡ 64 * p.count + u =
      ap length (sym p.split) ∙ length-append p.whole p.tail ∙ ap (λ k. k + u) p.whole_size in
    let used : ctx.bytes % 64 ≡ u = omega (arith, h.bytes_eq, size, p.tail_size) in
    let start = update-start ctx xs n u used in
    let sum : (ctx.bytes + n) % 2 ^ 64 ≡ length (msg ++ xs) % 2 ^ 64 =
      omega (arith, h.bytes_eq, length-append msg xs) in
    elim (Bool-cases (ltb 0 u)) [
      | inl some_held ↦
          let some_bytes : 0 < u = ground (arith, some_held) in
          let (ctx', run, p', b) =
            update_used-Placed (counted ctx n) msg xs (counted-Placed ctx msg n p) some_bytes in
          (ctx', start ∙ rw some_held run, record { placed = p'; bytes_eq = b ∙ sum })
      | inr none_held ↦
          let all : p.whole ≡ msg = no_tail p.whole p.tail msg (ground arith) p.split in
          let (ctx', run, p', b) =
            update_blocks-Placed (counted ctx n) msg xs p.count (ground (arith, size))
              (p.regs_eq ∙ ap (blocks p.count init_regs) all) p.buffer_size in
          (ctx', start ∙ rw none_held run, record { placed = p'; bytes_eq = b ∙ sum })
    ]

-- `zbaselib_md5_init` on a context with its 64 bytes of buffer stands for the empty message.
pub init-Holds : (ctx : Md5) → length ctx.buffer ≡ 64 → Holds (init ctx) []
unfolding init blocks
init-Holds ctx size = record {
  placed = record {
    whole = [];
    tail = [];
    count = 0;
    split = refl;
    whole_size = refl;
    tail_size = omega arith;
    regs_eq = refl;
    buffer_size = size;
    in_front = refl;
  };
  bytes_eq = refl;
}
