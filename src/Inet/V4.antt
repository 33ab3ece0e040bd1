-- ===== src/Inet/V4.antt =====
-- zbaselib_socket.c: `inet_pton4` and `inet_ntop4`.
use zbaselib.Prelude.{
  ℕ, zero, suc, ◌+◌, ◌-◌, ◌*◌, ◌≤◌, ◌<◌, ◌>>=◌, Option, none, some, List, [], ◌∷◌, ◌++◌, ◌==◌, ◌&&◌,
  ltb, leb, if◌then◌else◌, Bool, true, false, length, replicate, get_elem?,
}
use zbaselib.Inet.Chars.{strchr, digits, print_u}
pub mod Octets
pub mod Print
pub mod Rounds
pub mod Parse

-- The locals of inet_pton4: `tmp` up to `tp` in `octets_before`, and `*tp`.
pub record Pton4 : Type 0 where
  pub saw_digit : Bool
  pub octets : ℕ
  pub octets_before : List ℕ
  pub at_tp : ℕ

-- One round of the loop, with `none` for the return of -1.
unfoldable pub pton4_step : ℕ → Pton4 → Option Pton4
pton4_step ch s = elim (strchr digits ch) [
  | some d ↦
      let nw : ℕ = s.at_tp * 10 + d in
      if s.saw_digit && (s.at_tp == 0)
      then none
      else if ltb 255 nw
      then none
      else if s.saw_digit
      then some (record s { at_tp = nw })
      else if ltb 4 (s.octets + 1)
      then none
      else some (record s { at_tp = nw; octets = s.octets + 1; saw_digit = true })
  | none ↦
      if (ch == 46) && s.saw_digit
      then if s.octets == 4
        then none
        else some (record s {
          octets_before = s.octets_before ++ s.at_tp ∷ [];
          at_tp = 0;
          saw_digit = false;
        })
      else none
]

unfoldable pub pton4_loop : List ℕ → Pton4 → Option Pton4
unfolding pton4_step
pton4_loop [] s = some s
pton4_loop (ch ∷ src) s = do s' ← pton4_step ch s; pton4_loop src s'

abbrev pub pton4_start : Pton4
pton4_start = record { saw_digit = false; octets = 0; octets_before = []; at_tp = 0 }

-- inet_pton4: the bytes copied to `dst`, or `none` for -1.
unfoldable pub pton4 : List ℕ → Option (List ℕ)
unfolding pton4_loop
pton4 src = do
  s ← pton4_loop src pton4_start
  if ltb s.octets 4 then none else some (s.octets_before ++ s.at_tp ∷ [])

-- "%u.%u.%u.%u" of the bytes
unfoldable pub print4 : ℕ → ℕ → ℕ → ℕ → List ℕ
unfolding print_u
print4 a b c d = print_u a ++ 46 ∷ (print_u b ++ 46 ∷ (print_u c ++ 46 ∷ print_u d))

-- The copy of a string of `l` bytes into `size` bytes by strncpy, which fills the rest with zeros.
abbrev pub copied : List ℕ → ℕ → List ℕ
copied text size = text ++ replicate (size - length text) 0

-- inet_ntop4: the `size` bytes at `dst`, or `none` for -1; of fewer than four bytes it is a fault, here
-- -1 too.
unfoldable pub ntop4 : List ℕ → ℕ → Option (List ℕ)
unfolding print4
ntop4 (a ∷ b ∷ c ∷ d ∷ _) size =
    let text : List ℕ = print4 a b c d in
    if leb size (length text) then none else some (copied text size)
ntop4 _ size = none

-- The string that starts a memory: all up to the first zero.
unfoldable pub c_string : List ℕ → List ℕ
c_string [] = []
c_string (zero ∷ mem) = []
c_string (suc c ∷ mem) = suc c ∷ c_string mem
