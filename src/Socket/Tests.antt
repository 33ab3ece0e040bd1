-- ===== src/Socket/Tests.antt =====
-- Runs of the send loops on five bytes, with short writes and pauses.
use zbaselib.Prelude.{ℕ, ◌≡◌, refl, true, false, some, List, [], ◌∷◌, arith}
use zbaselib.Prelude.Int.{pos, negsuc}
use zbaselib.Socket.Defs.{
  SendAnswer, wrote, refused, Sent, sendn, sendn_retry, recv, arrived, failed, udp_sendn,
}
use zbaselib.Socket.Retry.{Told, sendn_retry-Told}

abbrev bytes : List ℕ
bytes = 1 ∷ 2 ∷ 3 ∷ 4 ∷ 5 ∷ []

abbrev slow : List SendAnswer
slow = wrote 2 ∷ refused true ∷ wrote 1 ∷ wrote 2 ∷ []

all_handed : sendn slow bytes 5 ≡ some (record { result = pos 5; handed = bytes; unused = [] })
unfolding sendn
all_handed = refl

abbrev stuck : List SendAnswer
stuck = wrote 2 ∷ refused true ∷ refused true ∷ wrote 1 ∷ wrote 1 ∷ wrote 1 ∷ wrote 1 ∷ wrote 1 ∷ []

sendn_retry-Told_example :
    (s : Sent) × (sendn_retry stuck bytes 5 (pos 2) ≡ some s) × Told stuck 5 2 bytes [] s
sendn_retry-Told_example =
    sendn_retry-Told stuck bytes 2
      (omega arith, (omega arith, (omega arith, (omega arith, (omega arith, (omega arith, tt))))))
      (omega arith) (omega arith)

-- The second refusal ends the call.
gives_up :
    sendn_retry stuck bytes 5 (pos 2)
    ≡ some (record {
      result = pos 2;
      handed = 1 ∷ 2 ∷ [];
      unused = wrote 1 ∷ wrote 1 ∷ wrote 1 ∷ wrote 1 ∷ wrote 1 ∷ [];
    })
unfolding sendn_retry
gives_up = refl

broken_off :
    udp_sendn (wrote 3 ∷ refused false ∷ []) bytes 5
    ≡ some (record { result = negsuc 0; handed = 1 ∷ 2 ∷ 3 ∷ []; unused = [] })
unfolding udp_sendn
broken_off = refl

recv_answers :
    (recv (λ n. arrived (7 ∷ 8 ∷ [])) 4 ≡ (pos 2, 7 ∷ 8 ∷ []))
    × (recv (λ n. arrived []) 4 ≡ (negsuc 0, []))
    × (recv (λ n. failed true) 4 ≡ (pos 0, []))
unfolding recv
recv_answers = (refl, refl, refl)
