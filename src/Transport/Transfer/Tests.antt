-- ===== src/Transport/Transfer/Tests.antt =====
-- A message of five bytes on its way in two packets.
use libclub.Prelude.{ℕ, ◌≡◌, refl, true, List, [], ◌∷◌, some, replicate, arith}
use libclub.Transport.Message.{reliable, of_code, OutMessage, out_message}
use libclub.Transport.PendingMessage.{PendingMessage, get_complete_message}
use libclub.Transport.Transfer.{transfer_all, blank}
use libclub.Transport.Transfer.Whole.{transfer_all-whole}

abbrev text : List ℕ
text = 104 ∷ 101 ∷ 108 ∷ 108 ∷ 111 ∷ []

-- Room for two bytes behind the header, and for seven.
abbrev packets : List (List ℕ)
packets = replicate 13 0 ∷ replicate 18 0 ∷ []

reliable_known : of_code 3 ≡ reliable
unfolding of_code
reliable_known = refl

transfer_all-whole_example :
    (m : OutMessage) × (pm : PendingMessage) × (transfer_all
        (out_message true reliable 7 text)
        (blank reliable 7 5)
        packets
      ≡ some (m, pm))
    × (get_complete_message pm
        ≡ some (record { type = reliable; sequence_number = 7; size = 5; payload = text }))
transfer_all-whole_example =
    transfer_all-whole true reliable 7 text packets reliable_known (omega arith) (omega arith)
      (omega arith) (omega arith) (omega arith, (omega arith, tt)) (omega arith)
