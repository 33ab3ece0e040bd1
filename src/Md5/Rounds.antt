-- ===== src/Md5/Rounds.antt =====
-- zbaselib_md5.c: the code's rounds are the operations of RFC 1321.
use Prim.Native.Nat.{bit_and, bit_or}
use zbaselib.Prelude.{
  ℕ, zero, suc, ◌+◌, ◌*◌, ◌/◌, ◌%◌, ◌^◌, ◌<◌, List, [], ◌∷◌, ◌++◌, ◌≡◌, refl, sym, ap, ◌∙◌, arith,
  get_elem?, take, drop,
}
use zbaselib.Md5.Steps.{
  Regs, Step, step_f, step_g, step_h, step_i, byte_or_zero, mix_f, mix_g, mix_h, mix_i, word_at,
  add_word, turn, shifted, step, run_steps, round_one, round_two, round_three, round_four, compress,
}
use zbaselib.Md5.Defs.{init_regs}
use zbaselib.Md5.Bits.{choose, and_comm}
use zbaselib.Md5.Blocks.{blocks}
use zbaselib.Md5.Rfc.{
  entry, sines, shifts, index, auxiliary, word, operation, operations, add_all, process, start,
  rotated, complement,
}

entry-get_elem? : (xs : List ℕ) → (i : ℕ) → entry xs i ≡ byte_or_zero (get_elem? xs i)
unfolding entry
entry-get_elem? [] i = refl
entry-get_elem? (x ∷ xs) zero = refl
entry-get_elem? (x ∷ xs) (suc i) = entry-get_elem? xs i

word-word_at : (block : List ℕ) → (k : ℕ) → word block k ≡ word_at block k
unfolding word word_at
word-word_at block k = omega (
  arith,
  entry-get_elem? block (4 * k),
  entry-get_elem? block (4 * k + 1),
  entry-get_elem? block (4 * k + 2),
  entry-get_elem? block (4 * k + 3),
)

-- The words are of 32 bits.
pub record Narrow (r : Regs) : Type 0 where
  a_lt : r.a < 2 ^ 32
  b_lt : r.b < 2 ^ 32
  c_lt : r.c < 2 ^ 32
  d_lt : r.d < 2 ^ 32

-- The line of the code for an operation
unfoldable as_step : (round i : ℕ) → Step
unfolding index shifts entry
as_step zero i = step_f (index 0 i) (entry sines i) (entry (shifts 0) (i % 4))
as_step (suc zero) i = step_g (index 1 i) (entry sines i) (entry (shifts 1) (i % 4))
as_step (suc (suc zero)) i = step_h (index 2 i) (entry sines i) (entry (shifts 2) (i % 4))
as_step (suc (suc (suc n))) i =
    step_i (index (suc (suc (suc n))) i) (entry sines i)
      (entry (shifts (suc (suc (suc n)))) (i % 4))

unfoldable all_steps : (i n : ℕ) → List Step
unfolding as_step
all_steps i zero = []
all_steps i (suc n) = as_step (i / 16) i ∷ all_steps (suc i) n

steps_table : all_steps 0 64 ≡ round_one ++ (round_two ++ (round_three ++ round_four))
unfolding all_steps
steps_table = refl

auxiliary-mix_f :
    (x y z : ℕ) → x < 2 ^ 32 → y < 2 ^ 32 → z < 2 ^ 32 → auxiliary 0 x y z ≡ mix_f x y z
unfolding auxiliary mix_f
auxiliary-mix_f x y z p q r = sym (choose 32 x y z p q r)

auxiliary-mix_g :
    (x y z : ℕ) → x < 2 ^ 32 → y < 2 ^ 32 → z < 2 ^ 32 → auxiliary 1 x y z ≡ mix_g x y z
unfolding auxiliary mix_g
auxiliary-mix_g x y z p q r =
    ap (λ m. bit_or m (bit_and y (complement z))) (and_comm 32 x z p r)
    ∙ ap (bit_or (bit_and z x)) (and_comm 32 y (complement z) q (omega arith))
    ∙ sym (choose 32 z x y r p q)

-- An operation, from the value of its function on.
operation-shifted :
    (block : List ℕ)
    → (r : Regs) → (i round mixed : ℕ) → i / 16 ≡ round
    → auxiliary round r.b r.c r.d ≡ mixed
    → operation block r i
      ≡ shifted r mixed
          (word_at block (index round i))
          (entry sines i)
          (entry (shifts round) (i % 4))
unfolding operation shifted turn
operation-shifted block r i round mixed e m =
    let t : ℕ = entry sines i in
    let sum : (r.a + auxiliary (i / 16) r.b r.c r.d + word block (index (i / 16) i) + t) % 2 ^ 32
        ≡ add_word r.a (mixed + word_at block (index round i) + t) =
      ap (λ n. (r.a + auxiliary n r.b r.c r.d + word block (index n i) + t) % 2 ^ 32) e
      ∙ omega (arith, m, word-word_at block (index round i)) in
    ap
      (λ n. record {
        a = r.d;
        b =
            (r.b
              + rotated
                  ((r.a + auxiliary (i / 16) r.b r.c r.d + word block (index (i / 16) i) + t)
                    % 2 ^ 32)
                  (entry (shifts n) (i % 4)))
            % 2 ^ 32;
        c = r.b;
        d = r.c;
      })
      e
    ∙ ap
        (λ n. record {
          a = r.d;
          b = (r.b + rotated n (entry (shifts round) (i % 4))) % 2 ^ 32;
          c = r.b;
          d = r.c;
        })
        sum
    ∙ ap (λ n. record { a = r.d; b = n; c = r.b; d = r.c }) (omega arith)

operation-step :
    (block : List ℕ)
    → (r : Regs) → Narrow r
    → (round i : ℕ) → i / 16 ≡ round
    → operation block r i ≡ step block r (as_step round i)
unfolding step as_step auxiliary mix_h mix_i
operation-step block r w zero i e =
    operation-shifted block r i 0 (mix_f r.b r.c r.d) e
      (auxiliary-mix_f r.b r.c r.d w.b_lt w.c_lt w.d_lt)
operation-step block r w (suc zero) i e =
    operation-shifted block r i 1 (mix_g r.b r.c r.d) e
      (auxiliary-mix_g r.b r.c r.d w.b_lt w.c_lt w.d_lt)
operation-step block r w (suc (suc zero)) i e =
    operation-shifted block r i 2 (mix_h r.b r.c r.d) e refl
operation-step block r w (suc (suc (suc n))) i e =
    operation-shifted block r i (suc (suc (suc n))) (mix_i r.b r.c r.d) e refl

operation-Narrow : (block : List ℕ) → (r : Regs) → Narrow r → (i : ℕ) → Narrow (operation block r i)
unfolding operation
operation-Narrow block r w i = record {
  a_lt = w.d_lt;
  b_lt = omega arith;
  c_lt = w.b_lt;
  d_lt = w.c_lt;
}

operations-run_steps :
    (block : List ℕ)
    → (r : Regs) → Narrow r
    → (i n : ℕ) → operations block r i n ≡ run_steps block r (all_steps i n)
unfolding operations run_steps all_steps
operations-run_steps block r w i zero = refl
operations-run_steps block r w i (suc n) =
    operations-run_steps block (operation block r i) (operation-Narrow block r w i) (suc i) n
    ∙ ap (λ q. run_steps block q (all_steps (suc i) n)) (operation-step block r w (i / 16) i refl)

run_steps-append :
    (block : List ℕ)
    → (r : Regs) → (xs ys : List Step)
    → run_steps block r (xs ++ ys) ≡ run_steps block (run_steps block r xs) ys
unfolding run_steps
run_steps-append block r [] ys = refl
run_steps-append block r (x ∷ xs) ys = run_steps-append block (step block r x) xs ys

-- The operations of a block are the lines of the code's loop.
operations-rounds :
    (block : List ℕ)
    → (r : Regs) → Narrow r
    → operations block r 0 64
      ≡ run_steps block
          (run_steps block (run_steps block (run_steps block r round_one) round_two) round_three)
          round_four
operations-rounds block r w =
    let one : Regs = run_steps block r round_one in
    operations-run_steps block r w 0 64
    ∙ ap (run_steps block r) steps_table
    ∙ run_steps-append block r round_one (round_two ++ (round_three ++ round_four))
    ∙ run_steps-append block one round_two (round_three ++ round_four)
    ∙ run_steps-append block (run_steps block one round_two) round_three round_four

add_all-compress :
    (block : List ℕ)
    → (r : Regs) → Narrow r
    → add_all (operations block r 0 64) r ≡ compress r block
unfolding compress
add_all-compress block r w = ap (λ q. add_all q r) (operations-rounds block r w)

add_all-Narrow : (q r : Regs) → Narrow (add_all q r)
add_all-Narrow q r = record {
  a_lt = omega arith;
  b_lt = omega arith;
  c_lt = omega arith;
  d_lt = omega arith;
}

pub process-blocks :
    (k : ℕ) → (r : Regs) → (xs : List ℕ) → Narrow r → process k r xs ≡ blocks k r xs
unfolding process blocks
process-blocks zero r xs w = refl
process-blocks (suc k) r xs w =
    process-blocks k (add_all (operations (take 64 xs) r 0 64) r) (drop 64 xs)
      (add_all-Narrow (operations (take 64 xs) r 0 64) r)
    ∙ ap (λ q. blocks k q (drop 64 xs)) (add_all-compress (take 64 xs) r w)

pub start-Narrow : Narrow start
start-Narrow = record {
  a_lt = omega arith;
  b_lt = omega arith;
  c_lt = omega arith;
  d_lt = omega arith;
}

pub start-init_regs : start ≡ init_regs
start-init_regs = refl
