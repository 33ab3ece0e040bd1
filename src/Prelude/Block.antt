-- ===== src/Prelude/Block.antt =====
-- Blocks of memory as lists: `memcpy` from and into a block, with a fault out of bounds.
use Prim.Native.Nat.{ℕ, ◌+◌, ◌-◌, ◌≤◌}
use mathlib.Core.Path.{◌≡◌}
use mathlib.Core.List.{List, ◌++◌}
use mathlib.Core.Option.{Option, none, some}
use native.Mathlib.Omega.{arith}
use zbaselib.Prelude.Tests.{leb, ltb, if◌then◌else◌}
use zbaselib.Prelude.Lists.{
  length, get_elem?, take, drop, length-append, length-take, length-drop, get_elem?-append,
  get_elem?-take, get_elem?-drop, eq_of_get_elem?, take-append_exact,
}

module _ {A : Type 0} where
  -- `xs` over the cells of `mem` from `off` on
  unfoldable pub splice : List A → ℕ → List A → List A
  splice mem off xs = take off mem ++ (xs ++ drop (off + length xs) mem)

  -- The `n` cells from `off` on.
  unfoldable pub read_at : List A → ℕ → ℕ → Option (List A)
  read_at mem off n = if leb (off + n) (length mem) then some (take n (drop off mem)) else none

  unfoldable pub write_at : List A → ℕ → List A → Option (List A)
  write_at mem off xs =
      if leb (off + length xs) (length mem) then some (splice mem off xs) else none

  pub length-splice :
      (mem : List A) (off : ℕ) (xs : List A)
      → off + length xs ≤ length mem
      → length (splice mem off xs) ≡ length mem
  unfolding splice
  length-splice mem off xs h = omega (
    arith,
    length-append (take off mem) (xs ++ drop (off + length xs) mem),
    length-append xs (drop (off + length xs) mem),
    length-take off mem,
    length-drop (off + length xs) mem,
  )

  pub get_elem?-splice :
      (mem : List A) (off : ℕ) (xs : List A) (i : ℕ)
      → off + length xs ≤ length mem
      → get_elem? (splice mem off xs) i ≡ (
          if ltb i off
          then get_elem? mem i
          else if ltb i (off + length xs)
          then get_elem? xs (i - off)
          else get_elem? mem i)
  unfolding splice
  get_elem?-splice mem off xs i h = ground (
    arith,
    get_elem?-append (take off mem) (xs ++ drop (off + length xs) mem) i,
    get_elem?-append xs (drop (off + length xs) mem) (i - length (take off mem)),
    get_elem?-take off mem i,
    get_elem?-drop (off + length xs) mem (i - length (take off mem) - length xs),
    length-take off mem,
  )

  pub read_at-ok :
      (mem : List A) (off n : ℕ)
      → off + n ≤ length mem
      → read_at mem off n ≡ some (take n (drop off mem))
  unfolding read_at
  read_at-ok mem off n h = ground arith

  pub write_at-ok :
      (mem : List A) (off : ℕ) (xs : List A)
      → off + length xs ≤ length mem
      → write_at mem off xs ≡ some (splice mem off xs)
  unfolding write_at
  write_at-ok mem off xs h = ground arith

  -- Two writes side by side at the start are one.
  pub splice-splice :
      (mem xs ys : List A)
      → length xs + length ys ≤ length mem
      → splice (splice mem 0 xs) (length xs) ys ≡ splice mem 0 (xs ++ ys)
  splice-splice mem xs ys h = eq_of_get_elem? _ _ λ i. ground (
    arith,
    length-splice mem 0 xs,
    length-append xs ys,
    get_elem?-splice (splice mem 0 xs) (length xs) ys i,
    get_elem?-splice mem 0 xs i,
    get_elem?-splice mem 0 (xs ++ ys) i,
    get_elem?-append xs ys i,
  )

  pub take-splice_front : (mem xs : List A) → take (length xs) (splice mem 0 xs) ≡ xs
  unfolding splice
  take-splice_front mem xs = take-append_exact xs _
