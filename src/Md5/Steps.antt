-- ===== src/Md5/Steps.antt =====
-- zbaselib_md5.c: the four rounds of MD5 on a block of 64 bytes. `uint32_t` sums wrap at 2^32.
use Prim.Native.Nat.{bit_and, bit_or, bit_xor}
use zbaselib.Prelude.{ℕ, ◌+◌, ◌-◌, ◌*◌, ◌/◌, ◌%◌, ◌^◌, Option, none, some, List, [], ◌∷◌, get_elem?}

-- The words a, b, c and d.
pub record Regs : Type 0 where
  pub a : ℕ
  pub b : ℕ
  pub c : ℕ
  pub d : ℕ

-- `a + b` of type `uint32_t`
abbrev pub add_word : ℕ → ℕ → ℕ
add_word a b = (a + b) % 2 ^ 32

-- F, G, H and I
unfoldable pub mix_f : ℕ → ℕ → ℕ → ℕ
mix_f x y z = bit_xor z (bit_and x (bit_xor y z))

unfoldable pub mix_g : ℕ → ℕ → ℕ → ℕ
mix_g x y z = bit_xor y (bit_and z (bit_xor x y))

unfoldable pub mix_h : ℕ → ℕ → ℕ → ℕ
mix_h x y z = bit_xor (bit_xor x y) z

unfoldable pub mix_i : ℕ → ℕ → ℕ → ℕ
mix_i x y z = bit_xor y (bit_or x (2 ^ 32 - 1 - z))

-- A line `STEP(f, ..., SET(index), t, s)` of the body, by the f, the index, t and s.
pub data Step : Type 0 where
  step_f : ℕ → ℕ → ℕ → Step
  step_g : ℕ → ℕ → ℕ → Step
  step_h : ℕ → ℕ → ℕ → Step
  step_i : ℕ → ℕ → ℕ → Step

abbrev pub byte_or_zero : Option ℕ → ℕ
byte_or_zero none = 0
byte_or_zero (some x) = x

-- SET and GET: the word at an index below 16 of a block, which has 64 bytes.
unfoldable pub word_at : List ℕ → ℕ → ℕ
word_at block n =
    byte_or_zero (get_elem? block (4 * n))
    + 256 * byte_or_zero (get_elem? block (4 * n + 1))
    + 65536 * byte_or_zero (get_elem? block (4 * n + 2))
    + 16777216 * byte_or_zero (get_elem? block (4 * n + 3))

-- The new `a` of STEP, from the sum and the shift.
unfoldable pub turn : (sum s b : ℕ) → ℕ
turn sum s b = add_word (bit_or (sum * 2 ^ s % 2 ^ 32) (sum / 2 ^ (32 - s))) b

-- STEP with the value of f, after which the words take the places that the next line names them in:
-- d, a, b, c.
unfoldable pub shifted : Regs → (mixed x t s : ℕ) → Regs
unfolding turn
shifted r mixed x t s = record {
  a = r.d;
  b = turn (add_word r.a (mixed + x + t)) s r.b;
  c = r.b;
  d = r.c;
}

unfoldable pub step : List ℕ → Regs → Step → Regs
unfolding mix_f mix_g mix_h mix_i word_at shifted
step block r (step_f n t s) = shifted r (mix_f r.b r.c r.d) (word_at block n) t s
step block r (step_g n t s) = shifted r (mix_g r.b r.c r.d) (word_at block n) t s
step block r (step_h n t s) = shifted r (mix_h r.b r.c r.d) (word_at block n) t s
step block r (step_i n t s) = shifted r (mix_i r.b r.c r.d) (word_at block n) t s

unfoldable pub run_steps : List ℕ → Regs → List Step → Regs
unfolding step
run_steps block regs [] = regs
run_steps block regs (s ∷ rest) = run_steps block (step block regs s) rest

-- The constants of the four rounds.
abbrev pub round_one : List Step
round_one =
    step_f 0 3614090360 7
    ∷ step_f 1 3905402710 12
    ∷ step_f 2 606105819 17
    ∷ step_f 3 3250441966 22
    ∷ step_f 4 4118548399 7
    ∷ step_f 5 1200080426 12
    ∷ step_f 6 2821735955 17
    ∷ step_f 7 4249261313 22
    ∷ step_f 8 1770035416 7
    ∷ step_f 9 2336552879 12
    ∷ step_f 10 4294925233 17
    ∷ step_f 11 2304563134 22
    ∷ step_f 12 1804603682 7
    ∷ step_f 13 4254626195 12
    ∷ step_f 14 2792965006 17
    ∷ step_f 15 1236535329 22
    ∷ []

abbrev pub round_two : List Step
round_two =
    step_g 1 4129170786 5
    ∷ step_g 6 3225465664 9
    ∷ step_g 11 643717713 14
    ∷ step_g 0 3921069994 20
    ∷ step_g 5 3593408605 5
    ∷ step_g 10 38016083 9
    ∷ step_g 15 3634488961 14
    ∷ step_g 4 3889429448 20
    ∷ step_g 9 568446438 5
    ∷ step_g 14 3275163606 9
    ∷ step_g 3 4107603335 14
    ∷ step_g 8 1163531501 20
    ∷ step_g 13 2850285829 5
    ∷ step_g 2 4243563512 9
    ∷ step_g 7 1735328473 14
    ∷ step_g 12 2368359562 20
    ∷ []

abbrev pub round_three : List Step
round_three =
    step_h 5 4294588738 4
    ∷ step_h 8 2272392833 11
    ∷ step_h 11 1839030562 16
    ∷ step_h 14 4259657740 23
    ∷ step_h 1 2763975236 4
    ∷ step_h 4 1272893353 11
    ∷ step_h 7 4139469664 16
    ∷ step_h 10 3200236656 23
    ∷ step_h 13 681279174 4
    ∷ step_h 0 3936430074 11
    ∷ step_h 3 3572445317 16
    ∷ step_h 6 76029189 23
    ∷ step_h 9 3654602809 4
    ∷ step_h 12 3873151461 11
    ∷ step_h 15 530742520 16
    ∷ step_h 2 3299628645 23
    ∷ []

abbrev pub round_four : List Step
round_four =
    step_i 0 4096336452 6
    ∷ step_i 7 1126891415 10
    ∷ step_i 14 2878612391 15
    ∷ step_i 5 4237533241 21
    ∷ step_i 12 1700485571 6
    ∷ step_i 3 2399980690 10
    ∷ step_i 10 4293915773 15
    ∷ step_i 1 2240044497 21
    ∷ step_i 8 1873313359 6
    ∷ step_i 15 4264355552 10
    ∷ step_i 6 2734768916 15
    ∷ step_i 13 1309151649 21
    ∷ step_i 4 4149444226 6
    ∷ step_i 11 3174756917 10
    ∷ step_i 2 718787259 15
    ∷ step_i 9 3951481745 21
    ∷ []

-- The body's loop on one block: the 64 steps, and the sums with the saved words.
unfoldable pub compress : Regs → List ℕ → Regs
unfolding run_steps
compress saved block =
    let one : Regs = run_steps block saved round_one in
    let two : Regs = run_steps block one round_two in
    let three : Regs = run_steps block two round_three in
    let four : Regs = run_steps block three round_four in
    record {
      a = add_word four.a saved.a;
      b = add_word four.b saved.b;
      c = add_word four.c saved.c;
      d = add_word four.d saved.d;
    }
