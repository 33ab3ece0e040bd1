-- ===== src/Md5/Blocks.antt =====
-- zbaselib_md5.c: the digest of whole blocks, and what a context stands for.
use zbaselib.Prelude.{
  ℕ, zero, suc, ◌+◌, ◌*◌, ◌%◌, ◌^◌, ◌≤◌, ◌<◌, ◌≡◌, refl, sym, ap, ◌∙◌, subst, some, List, [], ◌∷◌,
  ◌++◌, arith, length, take, drop, length-drop, take-append-drop,
}
use zbaselib.Prelude.Block.{read_at-ok}
use zbaselib.Md5.Steps.{Regs, compress}
use zbaselib.Md5.Defs.{Md5, init_regs, body}

-- The words after the first `k` blocks of `xs`.
unfoldable pub blocks : ℕ → Regs → List ℕ → Regs
blocks zero regs xs = regs
blocks (suc k) regs xs = blocks k (compress regs (take 64 xs)) (drop 64 xs)

module _ {A : Type 0} where
  drop_nil : (n : ℕ) → drop {A = A} n [] ≡ []
  drop_nil zero = refl
  drop_nil (suc n) = refl

  drop-drop : (m n : ℕ) (xs : List A) → drop m (drop n xs) ≡ drop (n + m) xs
  drop-drop m zero xs = rw (let e : zero + m ≡ m = omega arith in e) refl
  drop-drop m (suc n) [] = drop_nil m ∙ sym (drop_nil (suc n + m))
  drop-drop m (suc n) (x ∷ xs) =
      rw (let e : suc n + m ≡ suc (n + m) = omega arith in e) (drop-drop m n xs)

  take-append_within : (n : ℕ) (xs ys : List A) → n ≤ length xs → take n (xs ++ ys) ≡ take n xs
  take-append_within zero xs ys h = refl
  take-append_within (suc n) [] ys h = absurd (omega arith)
  take-append_within (suc n) (x ∷ xs) ys h =
      ap (λ r. x ∷ r) (take-append_within n xs ys (omega arith))

  drop-append_within :
      (n : ℕ) (xs ys : List A) → n ≤ length xs → drop n (xs ++ ys) ≡ drop n xs ++ ys
  drop-append_within zero xs ys h = refl
  drop-append_within (suc n) [] ys h = absurd (omega arith)
  drop-append_within (suc n) (x ∷ xs) ys h = drop-append_within n xs ys (omega arith)

pub body-blocks :
    (k : ℕ) (regs : Regs) (xs : List ℕ)
    → 64 * k ≤ length xs
    → body regs xs k ≡ some (blocks k regs xs, drop (64 * k) xs)
unfolding body blocks
body-blocks zero regs xs h = refl
body-blocks (suc k) regs xs h = ground (
  arith,
  read_at-ok xs 0 64,
  body-blocks k (compress regs (take 64 xs)) (drop 64 xs) (omega (arith, length-drop 64 xs)),
  drop-drop (64 * k) 64 xs,
  (let e : 64 + 64 * k ≡ 64 * suc k = omega arith in e),
)

pub blocks-append :
    (j k : ℕ) (regs : Regs) (xs ys : List ℕ)
    → length xs ≡ 64 * j
    → blocks (j + k) regs (xs ++ ys) ≡ blocks k (blocks j regs xs) ys
unfolding blocks
blocks-append zero k regs [] ys h = rw (let e : zero + k ≡ k = omega arith in e) refl
blocks-append zero k regs (x ∷ xs) ys h = absurd (omega arith)
blocks-append (suc j) k regs xs ys h = ground (
  arith,
  (let e : suc j + k ≡ suc (j + k) = omega arith in e),
  take-append_within 64 xs ys,
  drop-append_within 64 xs ys,
  blocks-append j k (compress regs (take 64 xs)) (drop 64 xs) ys,
  length-drop 64 xs,
)

-- What lies behind the blocks does not matter.
pub blocks-take :
    (k : ℕ) (regs : Regs) (xs : List ℕ)
    → length (take (64 * k) xs) ≡ 64 * k
    → blocks k regs xs ≡ blocks k regs (take (64 * k) xs)
unfolding blocks
blocks-take k regs xs h =
    let e : k + 0 ≡ k = omega arith in
    let p = blocks-append k 0 regs (take (64 * k) xs) (drop (64 * k) xs) h in
    subst (λ n. blocks n regs xs ≡ blocks k regs (take (64 * k) xs)) e
      (ap (blocks (k + 0) regs) (sym (take-append-drop (64 * k) xs)) ∙ p)

-- The context has worked off the whole blocks of `msg` and has the rest in its buffer.
pub record Placed (ctx : Md5) (msg : List ℕ) : Type 0 where
  pub whole : List ℕ
  pub tail : List ℕ
  pub count : ℕ
  pub split : whole ++ tail ≡ msg
  pub whole_size : length whole ≡ 64 * count
  pub tail_size : length tail < 64
  pub regs_eq : ctx.regs ≡ blocks count init_regs whole
  pub buffer_size : length ctx.buffer ≡ 64
  pub in_front : take (length tail) ctx.buffer ≡ tail

-- The context stands for `msg`.
pub record Holds (ctx : Md5) (msg : List ℕ) : Type 0 where
  pub placed : Placed ctx msg
  pub bytes_eq : ctx.bytes ≡ length msg % 2 ^ 64
