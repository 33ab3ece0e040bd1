-- ===== src/Dirs.antt =====
-- zbaselib.c: zbaselib_createdir, over the state `S` of a file system.
use zbaselib.Prelude.{
  ℕ, zero, suc, ◌+◌, ◌≤◌, ◌<◌, Bool, true, false, Option, none, some, ◌==◌, ltb, if◌then◌else◌,
  List, [], ◌∷◌, ◌++◌, ◌≡◌, ◌⊎◌, inl, inr, refl, arith, ◌&&◌, length, length-append, Bool-cases,
}
use zbaselib.Prelude.Int.{ℤ, pos, negsuc}
pub mod Made
mod Tests

-- A path is the list of its characters, without the NUL at its end.
abbrev pub DirName : Type 0
DirName = List ℕ

abbrev pub slash : ℕ
slash = 47

unfoldable pub last_is_slash : DirName → Bool
last_is_slash [] = false
last_is_slash (c ∷ []) = c == slash
last_is_slash (c ∷ (d ∷ cs)) = last_is_slash (d ∷ cs)

-- `access` tells whether zbaselib_access gives 0, and `mkdir` whether zbaselib_mkdir does not give -1.
module _ {S : Type 0} (access : DirName → S → Bool) (mkdir : DirName → S → Bool × S) where
  -- The loop at the index where `done` ends
  unfoldable pub createdir_loop : (done rest : DirName) → S → ℤ × S
  createdir_loop done [] s = (pos 0, s)
  createdir_loop done (c ∷ cs) s = elim (c == slash) [
    | false ↦ createdir_loop (done ++ (c ∷ [])) cs s
    | true ↦ elim (access done s) [
      | true ↦ createdir_loop (done ++ (c ∷ [])) cs s
      | false ↦ elim (mkdir done s).0 [
        | true ↦ createdir_loop (done ++ (c ∷ [])) cs (mkdir done s).1
        | false ↦ (negsuc 0, (mkdir done s).1)
      ]
    ]
  ]

  -- The array of the code has 256 characters, with the NUL.
  unfoldable pub createdir_from : DirName → S → Option (ℤ × S)
  createdir_from [] s = none
  createdir_from (c ∷ cs) s =
      if ltb (length (c ∷ cs)) 256 then some (createdir_loop (c ∷ []) cs s) else none

  unfoldable pub createdir : DirName → S → Option (ℤ × S)
  unfolding last_is_slash createdir_from
  createdir [] s = none
  createdir (c ∷ cs) s =
      if ltb (length (c ∷ cs)) 256
      then createdir_from (if last_is_slash (c ∷ cs) then c ∷ cs else (c ∷ cs) ++ (slash ∷ [])) s
      else none
