-- ===== src/Dirs/Tests.antt =====
-- Runs of zbaselib_createdir.
use zbaselib.Prelude.{Bool, true, false, some, List, [], ◌∷◌, ◌≡◌, refl, arith, ◌||◌, ◌==◌, ◌&&◌}
use zbaselib.Prelude.Int.{ℤ}
use zbaselib.Dirs.{DirName, createdir}
use zbaselib.Dirs.Made.{Made, closed, above, createdir-Made}

abbrev same : DirName → DirName → Bool
same [] [] = true
same [] (d ∷ ds) = false
same (c ∷ cs) [] = false
same (c ∷ cs) (d ∷ ds) = (c == d) && same cs ds

-- A file system is the list of its directories; mkdir does not fail.
abbrev among : DirName → List DirName → Bool
among d [] = false
among d (e ∷ es) = same d e || among d es

abbrev put : DirName → List DirName → Bool × List DirName
put d s = (true, d ∷ s)

same_self : (d : DirName) → same d d ≡ true
same_self [] = refl
same_self (c ∷ cs) = ground (arith, same_self cs)

createdir-Made_example :
    (run : ℤ × List DirName) × (createdir among put (97 ∷ 47 ∷ 98 ∷ []) [] ≡ some run)
    × Made among put (above (closed (97 ∷ 47 ∷ 98 ∷ []))) [] run
createdir-Made_example =
    createdir-Made among put (λ d s h. ground (arith, same_self d)) (λ d e s h. ground (arith, h))
      97 (47 ∷ 98 ∷ []) [] (omega arith)
