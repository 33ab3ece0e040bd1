-- ===== src/Prelude/Window.antt =====
-- A window that goes round the end of a block: writing past it, reading its front, and moving it.
use Prim.Native.Nat.{ℕ, ◌+◌, ◌-◌, ◌≤◌, ◌<◌}
use mathlib.Core.Path.{◌≡◌}
use mathlib.Core.List.{List, ◌++◌}
use mathlib.Core.Option.{none}
use native.Mathlib.Omega.{arith}
use zbaselib.Prelude.Tests.{ltb, if◌then◌else◌}
use zbaselib.Prelude.Lists.{
  length, get_elem?, take, drop, length-append, length-take, length-drop, get_elem?-append,
  get_elem?-take, get_elem?-drop, get_elem?_beyond, eq_of_get_elem?,
}
use zbaselib.Prelude.Block.{splice, length-splice, get_elem?-splice}

module _ {A : Type 0} where
  -- `k` cells from `r` on, going round at the end of `mem`
  unfoldable pub window : List A → ℕ → ℕ → List A
  window mem r k = take k (drop r (mem ++ mem))

  pub get_elem?-window :
      (mem : List A) (r k i : ℕ)
      → get_elem? (window mem r k) i ≡ (
          if ltb i k
          then if ltb (r + i) (length mem)
            then get_elem? mem (r + i)
            else get_elem? mem (r + i - length mem)
          else none)
  unfolding window
  get_elem?-window mem r k i = ground (
    arith,
    get_elem?-take k (drop r (mem ++ mem)) i,
    get_elem?-drop r (mem ++ mem) i,
    get_elem?-append mem mem (r + i),
  )

  pub length-window :
      (mem : List A) (r k : ℕ) → r ≤ length mem → k ≤ length mem → length (window mem r k) ≡ k
  unfolding window
  length-window mem r k hr hk = omega (
    arith,
    length-take k (drop r (mem ++ mem)),
    length-drop r (mem ++ mem),
    length-append mem mem,
  )

  -- Writing `xs` just past a window, with no turn round the end of the block, extends the window.
  pub window-splice :
      (mem xs : List A) (r k w : ℕ)
      → r < length mem
      → k + length xs ≤ length mem
      → w ≡ (if ltb (r + k) (length mem) then r + k else r + k - length mem)
      → w + length xs ≤ length mem
      → window (splice mem w xs) r (k + length xs) ≡ window mem r k ++ xs
  window-splice mem xs r k w hr hk hw hx = eq_of_get_elem? _ _ λ i. ground (
    arith,
    get_elem?-window (splice mem w xs) r (k + length xs) i,
    get_elem?-append (window mem r k) xs i,
    get_elem?-window mem r k i,
    length-window mem r k,
    length-splice mem w xs hx,
    get_elem?-splice mem w xs (r + i) hx,
    get_elem?-splice mem w xs (r + i - length mem) hx,
    get_elem?_beyond xs (i - k),
  )

  -- A write split at the end of the block: `xs` from `w` on, the rest from the start.
  unfoldable pub splice_round : List A → ℕ → List A → List A
  splice_round mem w xs =
      splice (splice mem w (take (length mem - w) xs)) 0
        (take (length xs + w - length mem) (drop (length mem - w) xs))

  module _ (mem xs : List A) (w : ℕ) (hw : w ≤ length mem) (hx : length mem ≤ w + length xs)
      (hl : length xs ≤ length mem) where
    pub length-splice_round : length (splice_round mem w xs) ≡ length mem
    unfolding splice_round
    length-splice_round = ground (
      arith,
      length-splice mem w (take (length mem - w) xs),
      length-splice (splice mem w (take (length mem - w) xs)) 0
          (take (length xs + w - length mem) (drop (length mem - w) xs)),
      length-take (length mem - w) xs,
      length-take (length xs + w - length mem) (drop (length mem - w) xs),
      length-drop (length mem - w) xs,
    )

    get_elem?-splice_round :
        (i : ℕ)
        → get_elem? (splice_round mem w xs) i ≡ (
            if ltb i (length xs + w - length mem)
            then get_elem? xs (length mem - w + i)
            else if ltb i w
            then get_elem? mem i
            else if ltb i (length mem)
            then get_elem? xs (i - w)
            else none)
    unfolding splice_round
    get_elem?-splice_round i = ground (
      arith,
      length-splice mem w (take (length mem - w) xs),
      length-take (length mem - w) xs,
      length-take (length xs + w - length mem) (drop (length mem - w) xs),
      length-drop (length mem - w) xs,
      get_elem?-splice (splice mem w (take (length mem - w) xs)) 0
          (take (length xs + w - length mem) (drop (length mem - w) xs)) i,
      get_elem?-splice mem w (take (length mem - w) xs) i,
      get_elem?-take (length mem - w) xs (i - w),
      get_elem?-take (length xs + w - length mem) (drop (length mem - w) xs) (i - 0),
      get_elem?-drop (length mem - w) xs i,
      get_elem?_beyond mem i,
    )

  -- The same where the write is split at the end of the block.
  pub window-splice_round :
      (mem xs : List A) (r k w : ℕ)
      → r < length mem
      → k + length xs ≤ length mem
      → w ≡ (if ltb (r + k) (length mem) then r + k else r + k - length mem)
      → length mem < w + length xs
      → window (splice_round mem w xs) r (k + length xs) ≡ window mem r k ++ xs
  window-splice_round mem xs r k w hr hk hw hx =
      let here : w ≤ length mem = ground arith in
      let over : length mem ≤ w + length xs = omega arith in
      let fits : length xs ≤ length mem = omega arith in
      eq_of_get_elem? _ _ λ i. ground (
        arith,
        get_elem?-window (splice_round mem w xs) r (k + length xs) i,
        get_elem?-append (window mem r k) xs i,
        get_elem?-window mem r k i,
        length-window mem r k,
        length-splice_round mem xs w here over fits,
        get_elem?-splice_round mem xs w here over fits (r + i),
        get_elem?-splice_round mem xs w here over fits (r + i - length mem),
        get_elem?_beyond xs (i - k),
      )

  -- The bytes at the front of a window, and the window that is left.
  pub take-window :
      (mem : List A) (r k n : ℕ)
      → r + n ≤ length mem
      → n ≤ k
      → take n (drop r mem) ≡ take n (window mem r k)
  take-window mem r k n hr hn = eq_of_get_elem? _ _ λ i. ground (
    arith,
    get_elem?-take n (drop r mem) i,
    get_elem?-drop r mem i,
    get_elem?-take n (window mem r k) i,
    get_elem?-window mem r k i,
  )

  pub take-window_round :
      (mem : List A) (r k n : ℕ)
      → r < length mem
      → length mem < r + n
      → n ≤ k
      → k ≤ length mem
      → take (length mem - r) (drop r mem) ++ take (n + r - length mem) mem
        ≡ take n (window mem r k)
  take-window_round mem r k n hr hx hn hk = eq_of_get_elem? _ _ λ i. ground (
    arith,
    get_elem?-append (take (length mem - r) (drop r mem)) (take (n + r - length mem) mem) i,
    length-take (length mem - r) (drop r mem),
    length-drop r mem,
    get_elem?-take (length mem - r) (drop r mem) i,
    get_elem?-drop r mem i,
    get_elem?-take (n + r - length mem) mem (i - (length mem - r)),
    get_elem?-take n (window mem r k) i,
    get_elem?-window mem r k i,
  )

  pub drop-window :
      (mem : List A) (r k n s : ℕ)
      → r < length mem
      → k ≤ length mem
      → n ≤ k
      → s ≡ (if ltb (r + n) (length mem) then r + n else r + n - length mem)
      → window mem s (k - n) ≡ drop n (window mem r k)
  drop-window mem r k n s hr hk hn hs = eq_of_get_elem? _ _ λ i. ground (
    arith,
    get_elem?-window mem s (k - n) i,
    get_elem?-drop n (window mem r k) i,
    get_elem?-window mem r k (n + i),
  )
