-- ===== src/Dlist/Samples.antt =====
-- A heap with two lists: at 1 the list of the data 7 and 8, at 4 an empty one.
use zbaselib.Prelude.{refl, true, false, none, some, [], ◌∷◌, arith, ◌==◌, if◌then◌else◌}
use zbaselib.Dlist.Heap.{Heap}
use zbaselib.Dlist.Ring.{Cells, IsRing}
use zbaselib.Dlist.Defs.{Dlist}
use zbaselib.Dlist.Add.{IsFresh}

abbrev pub sample : Heap
sample = record {
  cell = λ p.
      if p == 1
      then some (record { prev = 3; next = 2; payload = 0 })
      else if p == 2
      then some (record { prev = 1; next = 3; payload = 7 })
      else if p == 3
      then some (record { prev = 2; next = 1; payload = 8 })
      else if p == 4
      then some (record { prev = 4; next = 4; payload = 0 })
      else none;
  calls = [];
}

abbrev pub two : Cells
two = (2, 7) ∷ (3, 8) ∷ []

-- The list of 7 and 8 with a destructor, and without.
abbrev pub owner : Dlist
owner = record { head = 1; ddfunc = true }

abbrev pub plain : Dlist
plain = record { head = 1; ddfunc = false }

abbrev pub vacant : Dlist
vacant = record { head = 4; ddfunc = true }

pub two-IsRing : IsRing sample 1 two
two-IsRing = record {
  head_ne = omega arith;
  head_data = refl;
  links = (refl, refl, refl, (refl, refl, refl, (refl, refl)));
  apart = refl;
  nonnull = refl;
  distinct = (refl, (refl, tt));
}

pub vacant-IsRing : IsRing sample 4 []
vacant-IsRing = record {
  head_ne = omega arith;
  head_data = refl;
  links = (refl, refl);
  apart = refl;
  nonnull = refl;
  distinct = tt;
}

pub five-IsFresh : IsFresh sample 5
five-IsFresh = record { new_ne = omega arith; unused = refl }
