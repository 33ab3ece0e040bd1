-- ===== src/Md5/Rfc.antt =====
-- MD5 as RFC 1321 describes it, for the digest that zbaselib_md5.c is to compute.
use Prim.Native.Nat.{bit_and, bit_or, bit_xor}
use zbaselib.Prelude.{
  ℕ, zero, suc, ◌+◌, ◌-◌, ◌*◌, ◌/◌, ◌%◌, ◌^◌, List, [], ◌∷◌, ◌++◌, length, take, drop, replicate,
  ltb, if◌then◌else◌,
}
use zbaselib.Md5.Steps.{Regs}

-- The entry of a table at an index from 0 on, and 0 behind its end.
unfoldable pub entry : List ℕ → ℕ → ℕ
entry [] i = 0
entry (x ∷ xs) zero = x
entry (x ∷ xs) (suc i) = entry xs i

-- The table of the sines, T[1] to T[64].
abbrev pub sines : List ℕ
sines =
    0xd76aa478 ∷ 0xe8c7b756 ∷ 0x242070db ∷ 0xc1bdceee ∷ 0xf57c0faf ∷ 0x4787c62a ∷ 0xa8304613
    ∷ 0xfd469501 ∷ 0x698098d8 ∷ 0x8b44f7af ∷ 0xffff5bb1 ∷ 0x895cd7be ∷ 0x6b901122 ∷ 0xfd987193
    ∷ 0xa679438e ∷ 0x49b40821 ∷ 0xf61e2562 ∷ 0xc040b340 ∷ 0x265e5a51 ∷ 0xe9b6c7aa ∷ 0xd62f105d
    ∷ 0x02441453 ∷ 0xd8a1e681 ∷ 0xe7d3fbc8 ∷ 0x21e1cde6 ∷ 0xc33707d6 ∷ 0xf4d50d87 ∷ 0x455a14ed
    ∷ 0xa9e3e905 ∷ 0xfcefa3f8 ∷ 0x676f02d9 ∷ 0x8d2a4c8a ∷ 0xfffa3942 ∷ 0x8771f681 ∷ 0x6d9d6122
    ∷ 0xfde5380c ∷ 0xa4beea44 ∷ 0x4bdecfa9 ∷ 0xf6bb4b60 ∷ 0xbebfbc70 ∷ 0x289b7ec6 ∷ 0xeaa127fa
    ∷ 0xd4ef3085 ∷ 0x04881d05 ∷ 0xd9d4d039 ∷ 0xe6db99e5 ∷ 0x1fa27cf8 ∷ 0xc4ac5665 ∷ 0xf4292244
    ∷ 0x432aff97 ∷ 0xab9423a7 ∷ 0xfc93a039 ∷ 0x655b59c3 ∷ 0x8f0ccc92 ∷ 0xffeff47d ∷ 0x85845dd1
    ∷ 0x6fa87e4f ∷ 0xfe2ce6e0 ∷ 0xa3014314 ∷ 0x4e0811a1 ∷ 0xf7537e82 ∷ 0xbd3af235 ∷ 0x2ad7d2bb
    ∷ 0xeb86d391 ∷ []

-- The shifts of a round, counted from 0, which its operations take in turn.
unfoldable pub shifts : ℕ → List ℕ
shifts zero = 7 ∷ 12 ∷ 17 ∷ 22 ∷ []
shifts (suc zero) = 5 ∷ 9 ∷ 14 ∷ 20 ∷ []
shifts (suc (suc zero)) = 4 ∷ 11 ∷ 16 ∷ 23 ∷ []
shifts (suc (suc (suc n))) = 6 ∷ 10 ∷ 15 ∷ 21 ∷ []

-- The word of the block that operation `i`, from 0 on, takes in a round.
unfoldable pub index : (round i : ℕ) → ℕ
index zero i = i % 16
index (suc zero) i = (5 * i + 1) % 16
index (suc (suc zero)) i = (3 * i + 5) % 16
index (suc (suc (suc n))) i = 7 * i % 16

-- The bits of a word the other way
abbrev pub complement : ℕ → ℕ
complement x = 2 ^ 32 - 1 - x

-- The functions F, G, H and I of the four rounds.
unfoldable pub auxiliary : (round x y z : ℕ) → ℕ
auxiliary zero x y z = bit_or (bit_and x y) (bit_and (complement x) z)
auxiliary (suc zero) x y z = bit_or (bit_and x z) (bit_and y (complement z))
auxiliary (suc (suc zero)) x y z = bit_xor (bit_xor x y) z
auxiliary (suc (suc (suc n))) x y z = bit_xor y (bit_or x (complement z))

-- Word `k` of a block, the low byte first.
unfoldable pub word : List ℕ → ℕ → ℕ
unfolding entry
word block k =
    entry block (4 * k)
    + 256
      * (entry block (4 * k + 1) + 256 * (entry block (4 * k + 2) + 256 * entry block (4 * k + 3)))

-- A word shifted `s` bits to the left, where the bits that leave it come in on the right.
abbrev pub rotated : (x s : ℕ) → ℕ
rotated x s = bit_or (x * 2 ^ s % 2 ^ 32) (x / 2 ^ (32 - s))

-- a = b + ((a + F(b, c, d) + X[k] + T[i + 1]) <<< s), after which a, b, c, d have the places b, c, d, a.
unfoldable pub operation : List ℕ → Regs → (i : ℕ) → Regs
unfolding entry shifts index auxiliary word
operation block r i =
    let sum : ℕ =
      (r.a + auxiliary (i / 16) r.b r.c r.d + word block (index (i / 16) i) + entry sines i)
      % 2 ^ 32 in
    record {
      a = r.d;
      b = (r.b + rotated sum (entry (shifts (i / 16)) (i % 4))) % 2 ^ 32;
      c = r.b;
      d = r.c;
    }

-- The `n` operations from `i` on.
unfoldable pub operations : List ℕ → Regs → (i n : ℕ) → Regs
unfolding operation
operations block r i zero = r
operations block r i (suc n) = operations block (operation block r i) (suc i) n

abbrev pub add_all : (r saved : Regs) → Regs
add_all r saved = record {
  a = (r.a + saved.a) % 2 ^ 32;
  b = (r.b + saved.b) % 2 ^ 32;
  c = (r.c + saved.c) % 2 ^ 32;
  d = (r.d + saved.d) % 2 ^ 32;
}

-- The `k` blocks of a message, one after another.
unfoldable pub process : ℕ → Regs → List ℕ → Regs
unfolding operations
process zero r xs = r
process (suc k) r xs = process k (add_all (operations (take 64 xs) r 0 64) r) (drop 64 xs)

-- The four words before the first block.
abbrev pub start : Regs
start = record { a = 0x67452301; b = 0xefcdab89; c = 0x98badcfe; d = 0x10325476 }

-- The bytes of a number from byte `i` on, of which byte 0 is the low one.
unfoldable pub little_endian : (i k n : ℕ) → List ℕ
little_endian i zero n = []
little_endian i (suc k) n = n / 256 ^ i % 256 ∷ little_endian (suc i) k n

-- The bytes that pad a message of `n` bytes: 0x80, zeros up to 56 bytes behind the last block, and the
-- number of bits.
unfoldable pub padding : ℕ → List ℕ
unfolding little_endian
padding n =
    128
    ∷ (replicate (if ltb (n % 64) 56 then 55 - n % 64 else 119 - n % 64) 0
        ++ little_endian 0 8 (n * 8 % 2 ^ 64))

unfoldable pub result_of : Regs → List ℕ
unfolding little_endian
result_of r =
    little_endian 0 4 r.a ++ little_endian 0 4 r.b ++ little_endian 0 4 r.c ++ little_endian 0 4 r.d

-- The MD5 digest of a message
unfoldable pub digest : List ℕ → List ℕ
unfolding process padding result_of
digest msg =
    let padded : List ℕ = msg ++ padding (length msg) in
    result_of (process (length padded / 64) start padded)
