-- ===== src/Zbuffer/Tests.antt =====
-- Runs of `zbuffer_new` and `zbuffer_set`.
use zbaselib.Prelude.{refl, some, [], ◌∷◌}
use zbaselib.Prelude.Int.{pos}
use zbaselib.Zbuffer.{Zbuffer, Holds}

abbrev one : Zbuffer
one = record { buf = some (5 ∷ []); data_size = pos 1; buf_size = pos 1 }

one-Holds : Holds one 1 (5 ∷ [])
one-Holds = record {
  block = 5 ∷ [];
  allocated = refl;
  block_size = refl;
  buf_size_eq = refl;
  data_size_eq = refl;
  in_front = refl;
}
