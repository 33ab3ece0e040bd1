-- ===== src/Socket/Defs.antt =====
-- zbaselib_socket.c: the loops over `send` and the call of `recv`. What the system answers to these calls
-- is an argument: a function for `recv`, a list of answers for the calls of `send` in turn.
use zbaselib.Prelude.{
  ℕ, zero, suc, ◌-◌, ◌^◌, Bool, true, false, Option, none, some, List, [], ◌∷◌, ◌++◌, ltb, leb,
  if◌then◌else◌, length, take, drop,
}
use zbaselib.Prelude.Int.{ℤ, pos, negsuc, signed32}

-- zbaselib_socket_isvalid, of a descriptor (POSIX)
unfoldable pub isvalid : ℤ → Bool
isvalid (pos n) = true
isvalid (negsuc n) = false

-- `wrote n` is a positive result; `refused b` any other, where b tells whether
-- `zbaselib_socket_rw_wouldblock()` holds after it.
pub data SendAnswer : Type 0 where
  wrote : ℕ → SendAnswer
  refused : Bool → SendAnswer

-- The bytes that came, where none mean the end of the stream, or a negative result.
pub data RecvAnswer : Type 0 where
  arrived : List ℕ → RecvAnswer
  failed : Bool → RecvAnswer

-- What a loop over `send` leaves: its result, the bytes handed to the system, and the answers that are
-- not used. `none` means that the answers ran out while it was still sending.
pub record Sent : Type 0 where
  pub result : ℤ
  pub handed : List ℕ
  pub unused : List SendAnswer

unfoldable pub sendn_loop :
    List SendAnswer → (size : ℕ) (ptr : List ℕ) (nleft : ℕ) → List ℕ → Option Sent
sendn_loop answers size ptr zero handed =
    some (record { result = signed32 size; handed = handed; unused = answers })
sendn_loop [] size ptr (suc nleft) handed = none
sendn_loop (wrote n ∷ answers) size ptr (suc nleft) handed =
    sendn_loop answers size (drop n ptr) (suc nleft - n) (handed ++ take n ptr)
sendn_loop (refused true ∷ answers) size ptr (suc nleft) handed =
    sendn_loop answers size ptr (suc nleft) handed
sendn_loop (refused false ∷ answers) size ptr (suc nleft) handed =
    some (record { result = negsuc 0; handed = handed; unused = answers })

-- The bound of the loop: a size of 2^31 or more is a negative `int`.
abbrev pub as_left : ℕ → ℕ
as_left size = if ltb size (2 ^ 31) then size else 0

unfoldable pub sendn : List SendAnswer → List ℕ → ℕ → Option Sent
unfolding sendn_loop
sendn answers buf size = sendn_loop answers size buf (as_left size) []

-- `sendto` in place of `send`, and no pause.
unfoldable pub udp_sendn : List SendAnswer → List ℕ → ℕ → Option Sent
unfolding sendn_loop
udp_sendn answers buf size = sendn_loop answers size buf (as_left size) []

-- `retry` is what is left of it.
unfoldable pub retry_loop :
    List SendAnswer → (size retry : ℕ) (ptr : List ℕ) (nleft : ℕ) → List ℕ → Option Sent
retry_loop answers size retry ptr zero handed =
    some (record { result = signed32 size; handed = handed; unused = answers })
retry_loop [] size retry ptr (suc nleft) handed = none
retry_loop (wrote n ∷ answers) size retry ptr (suc nleft) handed =
    retry_loop answers size retry (drop n ptr) (suc nleft - n) (handed ++ take n ptr)
retry_loop (refused true ∷ answers) size retry ptr (suc nleft) handed =
    let again = retry_loop answers size (retry - 1) ptr (suc nleft) handed in
    if leb retry 1
    then some (record { result = pos (size - suc nleft); handed = handed; unused = answers })
    else again
retry_loop (refused false ∷ answers) size retry ptr (suc nleft) handed =
    some (record { result = negsuc 0; handed = handed; unused = answers })

-- A size of 2^31 or more is a negative `nleft`, which is taken off again. A `retry` of 0 or less gives up at
-- the first refusal, as 1 does.
unfoldable pub sendn_retry : List SendAnswer → List ℕ → ℕ → ℤ → Option Sent
unfolding retry_loop
sendn_retry answers buf size retry =
    let tries : ℕ = elim retry [ pos n ↦ n | negsuc n ↦ 0 ] in
    if ltb size (2 ^ 31)
    then retry_loop answers size tries buf size []
    else some (record { result = pos 0; handed = []; unused = answers })

-- zbaselib_socket_recv: its result, and the bytes stored at `buf`.
unfoldable pub recv : (ℕ → RecvAnswer) → ℕ → ℤ × List ℕ
recv system size = elim (system size) [
  | arrived [] ↦ (negsuc 0, [])
  | arrived (x ∷ xs) ↦ (pos (length (x ∷ xs)), x ∷ xs)
  | failed true ↦ (pos 0, [])
  | failed false ↦ (negsuc 0, [])
]
