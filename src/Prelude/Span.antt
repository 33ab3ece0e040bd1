-- ===== src/Prelude/Span.antt =====
-- A straight run of cells of a block: writing past it and moving it to the front.
use Prim.Native.Nat.{ℕ, ◌+◌, ◌-◌, ◌≤◌}
use mathlib.Core.Path.{◌≡◌}
use mathlib.Core.List.{List, ◌++◌}
use mathlib.Core.Option.{none}
use native.Mathlib.Omega.{arith}
use zbaselib.Prelude.Tests.{ltb, if◌then◌else◌}
use zbaselib.Prelude.Lists.{
  length, get_elem?, take, drop, length-take, length-drop, get_elem?-append, get_elem?-take,
  get_elem?-drop, get_elem?_beyond, eq_of_get_elem?,
}
use zbaselib.Prelude.Block.{splice, get_elem?-splice}

module _ {A : Type 0} where
  -- `k` cells from `r` on
  unfoldable pub span : List A → ℕ → ℕ → List A
  span mem r k = take k (drop r mem)

  pub get_elem?-span :
      (mem : List A) (r k i : ℕ)
      → get_elem? (span mem r k) i ≡ (if ltb i k then get_elem? mem (r + i) else none)
  unfolding span
  get_elem?-span mem r k i = ground (arith, get_elem?-take k (drop r mem) i, get_elem?-drop r mem i)

  pub length-span : (mem : List A) (r k : ℕ) → r + k ≤ length mem → length (span mem r k) ≡ k
  unfolding span
  length-span mem r k h = omega (arith, length-take k (drop r mem), length-drop r mem)

  -- A write just past the run extends it.
  pub span-splice :
      (mem xs : List A) (r k : ℕ)
      → r + k + length xs ≤ length mem
      → span (splice mem (r + k) xs) r (k + length xs) ≡ span mem r k ++ xs
  span-splice mem xs r k h = eq_of_get_elem? _ _ λ i. ground (
    arith,
    get_elem?-span (splice mem (r + k) xs) r (k + length xs) i,
    get_elem?-append (span mem r k) xs i,
    get_elem?-span mem r k i,
    length-span mem r k,
    get_elem?-splice mem (r + k) xs (r + i) h,
    get_elem?_beyond xs (i - k),
  )

  -- The run moved to the front of the block.
  pub span-moved :
      (mem : List A) (r k : ℕ)
      → r + k ≤ length mem
      → span (splice mem 0 (span mem r k)) 0 k ≡ span mem r k
  span-moved mem r k h = eq_of_get_elem? _ _ λ i. ground (
    arith,
    get_elem?-span (splice mem 0 (span mem r k)) 0 k i,
    get_elem?-span mem r k i,
    length-span mem r k,
    get_elem?-splice mem 0 (span mem r k) i,
  )

  -- The front of the run, and the rest of it.
  pub take-span : (mem : List A) (r k n : ℕ) → n ≤ k → take n (span mem r k) ≡ span mem r n
  take-span mem r k n h = eq_of_get_elem? _ _ λ i.
      ground (
        arith,
        get_elem?-take n (span mem r k) i,
        get_elem?-span mem r k i,
        get_elem?-span mem r n i,
      )

  pub drop-span :
      (mem : List A) (r k n : ℕ) → n ≤ k → drop n (span mem r k) ≡ span mem (r + n) (k - n)
  drop-span mem r k n h = eq_of_get_elem? _ _ λ i. ground (
    arith,
    get_elem?-drop n (span mem r k) i,
    get_elem?-span mem r k (n + i),
    get_elem?-span mem (r + n) (k - n) i,
  )

  -- A block with the same front has the same run there.
  pub span_of_front :
      (mem mem' : List A) (r k n : ℕ)
      → take n mem' ≡ take n mem
      → r + k ≤ n
      → span mem' r k ≡ span mem r k
  span_of_front mem mem' r k n e h = eq_of_get_elem? _ _ λ i. ground (
    arith,
    get_elem?-span mem' r k i,
    get_elem?-span mem r k i,
    get_elem?-take n mem' (r + i),
    get_elem?-take n mem (r + i),
  )
