-- ===== src/Array/Cells.antt =====
-- zbaselib_array.c: what the copy loops of `insert` and `delete` do to the cells.
use zbaselib.Prelude.{
  ℕ, zero, suc, ◌+◌, ◌-◌, ◌<◌, ◌≡◌, refl, some, List, [], ◌∷◌, arith, ltb, leb, if◌then◌else◌,
  length, get_elem?, ◌&&◌, ◌==◌, ap,
}
use zbaselib.Array.Defs.{block, load, store, set_cell, shift_up, shift_down}

module _ {A : Type 0} where
  pub length-set_cell : (mem : List A) (i : ℕ) (x : A) → length (set_cell mem i x) ≡ length mem
  length-set_cell [] i x = refl
  length-set_cell (y ∷ ys) zero x = refl
  length-set_cell (y ∷ ys) (suc i) x = ap suc (length-set_cell ys i x)

  pub get_elem?-set_cell :
      (mem : List A) (i : ℕ) (x : A) (j : ℕ)
      → get_elem? (set_cell mem i x) j
        ≡ (if (j == i) && ltb i (length mem) then some x else get_elem? mem j)
  get_elem?-set_cell [] i x j = ground arith
  get_elem?-set_cell (y ∷ ys) zero x zero = ground arith
  get_elem?-set_cell (y ∷ ys) zero x (suc j) = ground arith
  get_elem?-set_cell (y ∷ ys) (suc i) x zero = ground arith
  get_elem?-set_cell (y ∷ ys) (suc i) x (suc j) = ground (arith, get_elem?-set_cell ys i x j)

  pub cell_within : (mem : List A) (i : ℕ) → i < length mem → (x : A) × (get_elem? mem i ≡ some x)
  cell_within [] i h = absurd (omega arith)
  cell_within (y ∷ ys) zero h = (y, refl)
  cell_within (y ∷ ys) (suc i) h = cell_within ys i (omega arith)

  pub store-ok :
      (mem : List A) (i : ℕ) (x : A)
      → i < length mem
      → store (block mem) i x ≡ some (block (set_cell mem i x))
  unfolding store
  store-ok mem i x h = ground arith

  pub shift_up-cells :
      (index k : ℕ) (mem : List A)
      → index + k < length mem
      → (mem' : List A) × (shift_up index k (block mem) ≡ some (block mem'))
        × (length mem' ≡ length mem)
        × ((j : ℕ)
            → get_elem? mem' j ≡ (
                if ltb index j && leb j (index + k)
                then get_elem? mem (j - 1)
                else get_elem? mem j))
  unfolding shift_up load
  shift_up-cells index zero mem h = (mem, refl, refl, λ j. ground arith)
  shift_up-cells index (suc k) mem h =
      let (x, at) = cell_within mem (index + k) (omega arith) in
      let mem' : List A = set_cell mem (index + suc k) x in
      let (mem'', run, len, cells) =
        shift_up-cells index k mem' (omega (arith, length-set_cell mem (index + suc k) x)) in
      (
        mem'',
        ground (arith, store-ok mem (index + suc k) x h),
        omega (arith, len, length-set_cell mem (index + suc k) x),
        λ j. ground (
          arith,
          cells j,
          get_elem?-set_cell mem (index + suc k) x j,
          get_elem?-set_cell mem (index + suc k) x (j - 1),
        ),
      )

  pub shift_down-cells :
      (i k : ℕ) (mem : List A)
      → i + k < length mem
      → (mem' : List A) × (shift_down i k (block mem) ≡ some (block mem'))
        × (length mem' ≡ length mem)
        × ((j : ℕ)
            → get_elem? mem' j
              ≡ (if leb i j && ltb j (i + k) then get_elem? mem (j + 1) else get_elem? mem j))
  unfolding shift_down load
  shift_down-cells i zero mem h = (mem, refl, refl, λ j. ground arith)
  shift_down-cells i (suc k) mem h =
      let (x, at) = cell_within mem (suc i) (omega arith) in
      let mem' : List A = set_cell mem i x in
      let (mem'', run, len, cells) =
        shift_down-cells (suc i) k mem' (omega (arith, length-set_cell mem i x)) in
      (
        mem'',
        ground (arith, store-ok mem i x (let e : i < length mem = omega arith in e)),
        omega (arith, len, length-set_cell mem i x),
        λ j.
            ground
              (arith, cells j, get_elem?-set_cell mem i x j, get_elem?-set_cell mem i x (j + 1)),
      )
