-- ===== src/Md5/Tests.antt =====
-- The digest of "abc", as RFC 1321 lists it, and contexts that hold it.
use zbaselib.Prelude.{
  ℕ, ◌≡◌, refl, Option, some, List, [], ◌∷◌, ◌>>=◌, arith, length-replicate, arith,
}
use zbaselib.Prelude.Lists.{replicate}
use zbaselib.Prelude.Block.{read_at, write_at, splice}
use zbaselib.Md5.Steps.{compress}
use zbaselib.Md5.Blocks.{Holds, blocks}
use zbaselib.Md5.Digest.{wiped}
use zbaselib.Md5.Rfc.{digest}
use zbaselib.Md5.Final.{final-digest}
use zbaselib.Md5.Update.{update-Holds, init-Holds}
use zbaselib.Md5.Defs.{Md5, init_regs, init, update, final}

abbrev blank : Md5
blank = record { bytes = 0; regs = init_regs; buffer = replicate 64 0 }

unfoldable digest_of : List ℕ → ℕ → Option (List ℕ)
unfolding init update final
digest_of message size = do
  ctx ← update (init blank) message size
  (result, wiped) ← final ctx
  some result

digest_abc :
    digest_of (97 ∷ 98 ∷ 99 ∷ []) 3
    ≡ some (
        144 ∷ 1 ∷ 80 ∷ 152 ∷ 60 ∷ 210 ∷ 79 ∷ 176 ∷ 214 ∷ 150 ∷ 63 ∷ 125 ∷ 40 ∷ 225 ∷ 127 ∷ 114 ∷ [])
unfolding digest_of compress replicate read_at write_at splice
digest_abc = refl

rfc_abc :
    digest (97 ∷ 98 ∷ 99 ∷ [])
    ≡ 144 ∷ 1 ∷ 80 ∷ 152 ∷ 60 ∷ 210 ∷ 79 ∷ 176 ∷ 214 ∷ 150 ∷ 63 ∷ 125 ∷ 40 ∷ 225 ∷ 127 ∷ 114 ∷ []
unfolding digest replicate
rfc_abc = refl

blank-Holds : Holds (init blank) []
blank-Holds = init-Holds blank (length-replicate 64 (let z : ℕ = 0 in z))

update-Holds_example :
    (ctx : Md5) × (update (init blank) (97 ∷ 98 ∷ 99 ∷ []) 3 ≡ some ctx)
    × Holds ctx (97 ∷ 98 ∷ 99 ∷ [])
update-Holds_example = update-Holds (init blank) [] (97 ∷ 98 ∷ 99 ∷ []) blank-Holds

-- The context of "abc", as `update` leaves it.
abbrev abc : Md5
abc = record { bytes = 3; regs = init_regs; buffer = 97 ∷ 98 ∷ 99 ∷ replicate 61 0 }

abc-Holds : Holds abc (97 ∷ 98 ∷ 99 ∷ [])
unfolding blocks
abc-Holds = record {
  placed = record {
    whole = [];
    tail = 97 ∷ 98 ∷ 99 ∷ [];
    count = 0;
    split = refl;
    whole_size = refl;
    tail_size = omega arith;
    regs_eq = refl;
    buffer_size = omega (arith, length-replicate 61 (let z : ℕ = 0 in z));
    in_front = refl;
  };
  bytes_eq = refl;
}

final-digest_example : final abc ≡ some (digest (97 ∷ 98 ∷ 99 ∷ []), wiped)
final-digest_example = final-digest abc (97 ∷ 98 ∷ 99 ∷ []) abc-Holds
