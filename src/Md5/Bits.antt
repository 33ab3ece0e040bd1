-- ===== src/Md5/Bits.antt =====
-- zbaselib_md5.c: the exclusive-or forms of F and G against the forms of RFC 1321.
use Prim.Native.Nat.{
  min, max, bit_and, bit_or, bit_xor, digits, differ, bit_and-bitwise, bit_or-bitwise,
  bit_xor-bitwise,
}
use native.Mathlib.Omega.{pow_step}
use zbaselib.Prelude.{
  ℕ, zero, suc, ◌+◌, ◌-◌, ◌*◌, ◌/◌, ◌%◌, ◌^◌, ◌≤◌, ◌<◌, ◌≡◌, refl, sym, ap, ◌∙◌, arith,
}

module _ (end : ℕ → ℕ) (op : ℕ → ℕ → ℕ) where
  -- One digit more to go makes no difference behind the last.
  digits_beyond : (n x y : ℕ) → x ≤ n → digits end op (suc n) x y ≡ digits end op n x y
  digits_beyond zero zero y le = refl
  digits_beyond (suc n) zero y le = refl
  digits_beyond zero (suc x) y le = absurd (omega arith)
  digits_beyond (suc n) (suc x) y le =
      ap (λ high. high * 2 + op (suc x % 2) (y % 2))
        (digits_beyond n (suc x / 2) (y / 2) (omega arith))

  digits_all : (more x y : ℕ) → digits end op (more + x) x y ≡ digits end op x x y
  digits_all zero x y = ap (λ n. digits end op n x y) (omega arith)
  digits_all (suc more) x y =
      ap (λ n. digits end op n x y) (let e : suc more + x ≡ suc (more + x) = omega arith in e)
      ∙ digits_beyond (more + x) x y (omega arith)
      ∙ digits_all more x y

  -- The lowest digit and the others.
  digits_step :
      ((y : ℕ) → end y ≡ end (y / 2) * 2 + op 0 (y % 2))
      → (x y : ℕ)
      → digits end op x x y ≡ digits end op (x / 2) (x / 2) (y / 2) * 2 + op (x % 2) (y % 2)
  digits_step last zero y = last y
  digits_step last (suc x) y =
      let half : ℕ = suc x / 2 in
      let enough : x ≡ (x - half) + half = omega arith in
      ap (λ high. high * 2 + op (suc x % 2) (y % 2))
        (ap (λ n. digits end op n half (y / 2)) enough ∙ digits_all (x - half) half (y / 2))

and_step : (a b : ℕ) → bit_and a b ≡ bit_and (a / 2) (b / 2) * 2 + min (a % 2) (b % 2)
and_step a b = omega (
  arith,
  bit_and-bitwise a b,
  bit_and-bitwise (a / 2) (b / 2),
  digits_step (λ b. 0) min (λ b. omega arith) a b,
)

or_step : (a b : ℕ) → bit_or a b ≡ bit_or (a / 2) (b / 2) * 2 + max (a % 2) (b % 2)
or_step a b = omega (
  arith,
  bit_or-bitwise a b,
  bit_or-bitwise (a / 2) (b / 2),
  digits_step (λ b. b) max (λ b. omega arith) a b,
)

xor_step : (a b : ℕ) → bit_xor a b ≡ bit_xor (a / 2) (b / 2) * 2 + differ (a % 2) (b % 2)
xor_step a b = omega (
  arith,
  bit_xor-bitwise a b,
  bit_xor-bitwise (a / 2) (b / 2),
  digits_step (λ b. b) differ (λ b. omega arith) a b,
)

differ_bits : (u v : ℕ) → u < 2 → v < 2 → differ u v < 2
differ_bits zero zero p q = omega arith
differ_bits zero (suc zero) p q = omega arith
differ_bits zero (suc (suc v)) p q = absurd (omega arith)
differ_bits (suc zero) zero p q = omega arith
differ_bits (suc zero) (suc zero) p q = omega arith
differ_bits (suc zero) (suc (suc v)) p q = absurd (omega arith)
differ_bits (suc (suc u)) v p q = absurd (omega arith)

differ_small : (a b : ℕ) → differ (a % 2) (b % 2) < 2
differ_small a b = differ_bits (a % 2) (b % 2) (omega arith) (omega arith)

and-half : (a b : ℕ) → bit_and a b / 2 ≡ bit_and (a / 2) (b / 2)
and-half a b = omega (arith, and_step a b)

and-low : (a b : ℕ) → bit_and a b % 2 ≡ min (a % 2) (b % 2)
and-low a b = omega (arith, and_step a b)

or-half : (a b : ℕ) → bit_or a b / 2 ≡ bit_or (a / 2) (b / 2)
or-half a b = omega (arith, or_step a b)

or-low : (a b : ℕ) → bit_or a b % 2 ≡ max (a % 2) (b % 2)
or-low a b = omega (arith, or_step a b)

xor-half : (a b : ℕ) → bit_xor a b / 2 ≡ bit_xor (a / 2) (b / 2)
xor-half a b = omega (arith, xor_step a b, differ_small a b)

xor-low : (a b : ℕ) → bit_xor a b % 2 ≡ differ (a % 2) (b % 2)
xor-low a b = omega (arith, xor_step a b, differ_small a b)

-- F and G on one digit.
choose_bits :
    (u v w : ℕ)
    → u < 2
    → v < 2
    → w < 2
    → differ w (min u (differ v w)) ≡ max (min u v) (min (1 - u) w)
choose_bits zero zero zero p q r = refl
choose_bits zero zero (suc zero) p q r = refl
choose_bits zero (suc zero) zero p q r = refl
choose_bits zero (suc zero) (suc zero) p q r = refl
choose_bits (suc zero) zero zero p q r = refl
choose_bits (suc zero) zero (suc zero) p q r = refl
choose_bits (suc zero) (suc zero) zero p q r = refl
choose_bits (suc zero) (suc zero) (suc zero) p q r = refl
choose_bits (suc (suc u)) v w p q r = absurd (omega arith)
choose_bits zero (suc (suc v)) w p q r = absurd (omega arith)
choose_bits (suc zero) (suc (suc v)) w p q r = absurd (omega arith)
choose_bits zero zero (suc (suc w)) p q r = absurd (omega arith)
choose_bits zero (suc zero) (suc (suc w)) p q r = absurd (omega arith)
choose_bits (suc zero) zero (suc (suc w)) p q r = absurd (omega arith)
choose_bits (suc zero) (suc zero) (suc (suc w)) p q r = absurd (omega arith)

halves : (a b : ℕ) → a / 2 ≡ b / 2 → a % 2 ≡ b % 2 → a ≡ b
halves a b p q = omega arith

-- The digits of `z`, with those of `y` where `x` has a one.
pub choose :
    (k x y z : ℕ)
    → x < 2 ^ k
    → y < 2 ^ k
    → z < 2 ^ k
    → bit_xor z (bit_and x (bit_xor y z)) ≡ bit_or (bit_and x y) (bit_and (2 ^ k - 1 - x) z)
choose zero zero zero zero p q r = refl
choose zero (suc x) y z p q r = absurd (omega arith)
choose zero zero (suc y) z p q r = absurd (omega arith)
choose zero zero zero (suc z) p q r = absurd (omega arith)
choose (suc k) x y z p q r =
    let double : 2 ^ suc k ≡ 2 * 2 ^ k = omega (arith, pow_step 2 k) in
    let rest : (2 ^ suc k - 1 - x) / 2 ≡ 2 ^ k - 1 - x / 2 = omega arith in
    let last : (2 ^ suc k - 1 - x) % 2 ≡ 1 - x % 2 = omega arith in
    let n : ℕ = 2 ^ suc k - 1 - x in
    let ih = choose k (x / 2) (y / 2) (z / 2) (omega arith) (omega arith) (omega arith) in
    let bits = choose_bits (x % 2) (y % 2) (z % 2) (omega arith) (omega arith) (omega arith) in
    halves (bit_xor z (bit_and x (bit_xor y z))) (bit_or (bit_and x y) (bit_and n z))
      (xor-half z (bit_and x (bit_xor y z))
        ∙ ap (bit_xor (z / 2)) (and-half x (bit_xor y z) ∙ ap (bit_and (x / 2)) (xor-half y z))
        ∙ ih
        ∙ ap (λ m. bit_or (bit_and (x / 2) (y / 2)) (bit_and m (z / 2))) (sym rest)
        ∙ ap (λ m. bit_or m (bit_and (n / 2) (z / 2))) (sym (and-half x y))
        ∙ ap (bit_or (bit_and x y / 2)) (sym (and-half n z))
        ∙ sym (or-half (bit_and x y) (bit_and n z)))
      (xor-low z (bit_and x (bit_xor y z))
        ∙ ap (differ (z % 2)) (and-low x (bit_xor y z) ∙ ap (min (x % 2)) (xor-low y z))
        ∙ bits
        ∙ ap (λ m. max (min (x % 2) (y % 2)) (min m (z % 2))) (sym last)
        ∙ ap (λ m. max m (min (n % 2) (z % 2))) (sym (and-low x y))
        ∙ ap (max (bit_and x y % 2)) (sym (and-low n z))
        ∙ sym (or-low (bit_and x y) (bit_and n z)))

min_comm : (u v : ℕ) → min u v ≡ min v u
min_comm u v = omega arith

pub and_comm : (k a b : ℕ) → a < 2 ^ k → b < 2 ^ k → bit_and a b ≡ bit_and b a
and_comm zero zero zero p q = refl
and_comm zero (suc a) b p q = absurd (omega arith)
and_comm zero zero (suc b) p q = absurd (omega arith)
and_comm (suc k) a b p q =
    let double : 2 ^ suc k ≡ 2 * 2 ^ k = omega (arith, pow_step 2 k) in
    halves (bit_and a b) (bit_and b a)
      (and-half a b ∙ and_comm k (a / 2) (b / 2) (omega arith) (omega arith) ∙ sym (and-half b a))
      (and-low a b ∙ min_comm (a % 2) (b % 2) ∙ sym (and-low b a))
