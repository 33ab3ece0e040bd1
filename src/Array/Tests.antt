-- ===== src/Array/Tests.antt =====
-- Runs of the array with ten cells of four bytes.
use zbaselib.Prelude.{ℕ, ◌≡◌, refl, none, some, List, [], ◌∷◌, arith}
use zbaselib.Prelude.Int.{pos}
use zbaselib.Array.Defs.{Array, block, freed, insert, append, delete}
use zbaselib.Array.Insert.{IsValid, CanGrow, elements, insert-elements, insert_lost}
use zbaselib.Array.Delete.{delete-elements, delete-dangles}

abbrev cells : List ℕ
cells = 5 ∷ 6 ∷ []

-- Two cells, both in use.
abbrev two : Array ℕ
two = record { elem_size = 4; size = 2; capacity = 2; cells = block cells }

two-IsValid : IsValid two cells
two-IsValid = record {
  allocated = refl;
  block_size = refl;
  size_in = omega arith;
  capacity_int = omega arith;
}

two-CanGrow : CanGrow two
two-CanGrow = record { larger_int = omega arith; bytes_int = omega arith; has_size = omega arith }

abbrev more : List ℕ
more = 0 ∷ 0 ∷ 0 ∷ 0 ∷ 0 ∷ 0 ∷ 0 ∷ 0 ∷ 0 ∷ 0 ∷ 0 ∷ []

insert-elements_example :
    (a' : Array ℕ) × (mem' : List ℕ) × (insert (some two) (some 9) (pos 1) (some more)
      ≡ some (pos 0, some a'))
    × IsValid a' mem'
    × (a'.size ≡ 3)
    × (elements a' mem' ≡ 5 ∷ 9 ∷ 6 ∷ [])
insert-elements_example =
    insert-elements two cells more 9 1 two-IsValid two-CanGrow refl (omega arith)

insert_lost_example : insert (some two) (some 9) (pos 1) none ≡ some (pos 0, some two)
insert_lost_example = insert_lost two cells 9 1 two-IsValid two-CanGrow refl (omega arith)

delete-elements_example :
    (a' : Array ℕ) × (mem' : List ℕ) × (delete (some two) (pos 0) none ≡ some (pos 0, some a'))
    × IsValid a' mem'
    × (a'.size ≡ 1)
    × (elements a' mem' ≡ 6 ∷ [])
delete-elements_example =
    delete-elements two cells none 0 two-IsValid (omega arith) (omega arith) (omega arith)
      (omega arith)

-- One element in twelve cells.
abbrev cells12 : List ℕ
cells12 = 5 ∷ 6 ∷ 0 ∷ 0 ∷ 0 ∷ 0 ∷ 0 ∷ 0 ∷ 0 ∷ 0 ∷ 0 ∷ 0 ∷ []

abbrev one : Array ℕ
one = record { elem_size = 4; size = 1; capacity = 12; cells = block cells12 }

one-IsValid : IsValid one cells12
one-IsValid = record {
  allocated = refl;
  block_size = refl;
  size_in = omega arith;
  capacity_int = omega arith;
}

delete-dangles_example :
    (delete (some one) (pos 0) none ≡ some (pos 0, some (record one { size = 0; cells = freed })))
    × (append (some (record one { size = 0; cells = freed })) (some 8) none ≡ none)
delete-dangles_example = delete-dangles one cells12 none none 8 one-IsValid refl (omega arith)
