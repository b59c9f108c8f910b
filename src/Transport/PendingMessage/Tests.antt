-- ===== src/Transport/PendingMessage/Tests.antt =====
-- The results on include/club/transport/pending_message.h at a message of four bytes.
use libclub.Prelude.{
  ℕ, zero, ◌+◌, ◌≡◌, refl, true, false, ◌&&◌, ◌||◌, List, [], ◌∷◌, some, arith, length, leb, ltb,
  suc, get_or,
}
use libclub.Transport.Message.{reliable, InMessagePart, InMessageFull}
use libclub.Transport.PartInfo.Cover.{covers}
use libclub.Transport.PendingMessage.{
  PendingMessage, is_whole, is_complete, update_payload, get_complete_message,
}
use libclub.Transport.PendingMessage.Assemble.{
  Assembles, slice, update_payload-Assembles, get_complete_message-Assembles, is_complete_of_empty,
}

abbrev payload : List ℕ
payload = 1 ∷ 2 ∷ 3 ∷ 4 ∷ []

-- The last two bytes have arrived.
abbrev half : PendingMessage
half = record {
  type = reliable;
  sequence_number = 9;
  size = 4;
  bytes = 0 ∷ 0 ∷ 3 ∷ 4 ∷ [];
  part_info = (2, 4) ∷ [];
}

half_agree : (x : ℕ) → covers half.part_info x ≡ true → get_or half.bytes x 0 ≡ get_or payload x 0
half_agree zero c = cc
half_agree (suc zero) c = cc
half_agree (suc (suc zero)) c = refl
half_agree (suc (suc (suc zero))) c = refl
half_agree (suc (suc (suc (suc x)))) c = refl

half-Assembles : Assembles payload half
half-Assembles = record {
  size_right = refl;
  bytes_right = refl;
  separated = (omega arith, omega arith, tt);
  inside = λ x c. ground arith;
  agree = half_agree;
}

abbrev whole : PendingMessage
whole = record {
  type = reliable;
  sequence_number = 9;
  size = 4;
  bytes = payload;
  part_info = (0, 4) ∷ [];
}

whole-Assembles : Assembles payload whole
whole-Assembles = record {
  size_right = refl;
  bytes_right = refl;
  separated = (omega arith, omega arith, tt);
  inside = λ x c. ground arith;
  agree = λ x c. refl;
}

abbrev nothing : PendingMessage
nothing = record { type = reliable; sequence_number = 9; size = 0; bytes = []; part_info = [] }

nothing-Assembles : Assembles [] nothing
nothing-Assembles = record {
  size_right = refl;
  bytes_right = refl;
  separated = tt;
  inside = λ x c. cc;
  agree = λ x c. refl;
}

update_payload-Assembles_example :
    (pm' : PendingMessage) × (update_payload half 1 (slice payload 1 2) ≡ some pm')
    × Assembles payload pm'
    × ((x : ℕ)
        → covers pm'.part_info x
          ≡ ((leb 1 x && ltb x (1 + length (slice payload 1 2))) || covers half.part_info x))
    × (pm'.type ≡ half.type)
    × (pm'.sequence_number ≡ half.sequence_number)
update_payload-Assembles_example = update_payload-Assembles 1 2 half-Assembles (omega arith)

whole-is_complete : is_complete whole ≡ true
unfolding is_complete is_whole
whole-is_complete = refl

get_complete_message-Assembles_example :
    get_complete_message whole
    ≡ some (record { type = reliable; sequence_number = 9; size = 4; payload = payload })
get_complete_message-Assembles_example =
    get_complete_message-Assembles whole-Assembles whole-is_complete

abbrev part : InMessagePart
part = record {
  type = reliable;
  sequence_number = 9;
  original_size = 4;
  chunk_start = 1;
  chunk_size = 2;
  payload = 2 ∷ 3 ∷ [];
  header_and_payload = [];
}

is_complete_of_empty_example : is_complete nothing ≡ false
is_complete_of_empty_example = is_complete_of_empty nothing-Assembles

abbrev full : InMessageFull
full = record { type = reliable; sequence_number = 9; size = 4; payload = payload }
