-- ===== src/Transport/AckSet/Wire.antt =====
-- `encode` and `decode` of include/club/transport/ack_set.h. The lowest number is not sent.
use libclub.Prelude.{ℕ, ◌≤◌, ◌<◌, ◌≡◌, refl, ◌∙◌, true, List, ◌++◌, arith, length, if◌then◌else◌}
use libclub.Binary.Encoder.{Encoder, encoder, encode_u32}
use libclub.Binary.Encoder
use libclub.Binary.Encoder.Write.{Puts, Puts-seq, be32, write_room}
use libclub.Binary.Decoder.{Decoder, decoder, get_u32}
use libclub.Binary.Decoder.Read.{get_u32-append}
use libclub.Binary.Codec.Words.{u32_codec}
use libclub.Transport.Word.{u32_mod}
use libclub.Transport.AckSet.{AckSet, empty_set, empty, get_bit, is_in}

pub encode_ack_set : Encoder → AckSet → Encoder
encode_ack_set e s =
    Encoder.put encode_u32 (Encoder.put encode_u32 e s.highest_sequence_number) s.bitmask

-- A set that is got is made by the default constructor first.
pub decode_ack_set : Decoder → AckSet × Decoder
decode_ack_set d =
    let (highest, d1) = get_u32 d in
    let (mask, d2) = get_u32 d1 in
    if d.was_error
    then (empty_set, d)
    else (record empty_set { highest_sequence_number = highest; bitmask = mask }, d2)

-- The bytes of `encoded<AckSet>::size()`.
abbrev pub ack_set_bytes : AckSet → List ℕ
ack_set_bytes s = be32 s.highest_sequence_number ++ be32 s.bitmask

Puts-encode_ack_set : (s : AckSet) → Puts (λ e. encode_ack_set e s) (ack_set_bytes s)
unfolding encode_ack_set
Puts-encode_ack_set s =
    Puts-seq (be32 s.highest_sequence_number) (be32 s.bitmask)
      (u32_codec.puts s.highest_sequence_number) (u32_codec.puts s.bitmask)

-- The set at the other end.
abbrev pub received_set : AckSet → AckSet
received_set s = record s { lowest_sequence_number = 0 }

decode_ack_set-append :
    (s : AckSet) (rest : List ℕ)
    → s.highest_sequence_number < u32_mod
    → s.bitmask < u32_mod
    → decode_ack_set (decoder (ack_set_bytes s ++ rest)) ≡ (received_set s, decoder rest)
unfolding decode_ack_set
decode_ack_set-append s rest h k =
    rw
      (
        get_u32-append s.highest_sequence_number (be32 s.bitmask ++ rest) h,
        get_u32-append s.bitmask rest k,
      )
      refl

received_set-is_in :
    (s : AckSet) (x : ℕ)
    → (is_in (received_set s) x ≡ true → is_in s x ≡ true)
      × (s.lowest_sequence_number ≤ x → is_in (received_set s) x ≡ is_in s x)
unfolding is_in empty get_bit
received_set-is_in s x = (λ h. ground arith, λ h. ground arith)

-- A set whose numbers fit into 32 bits, put into a buffer with room for 8 bytes and read back: the
-- reader stops behind it without an error, and of the set it gets, a number that is in it is in
-- the one sent, and a number not below the lowest one of the set sent is in both or in neither.
pub decode_ack_set-encode_ack_set :
    (s : AckSet) (buffer rest : List ℕ)
    → s.highest_sequence_number < u32_mod
    → s.bitmask < u32_mod
    → 8 ≤ length buffer
    → (t : AckSet) × (decode_ack_set (decoder ((encode_ack_set (encoder buffer) s).before ++ rest))
        ≡ (t, decoder rest))
      × ((x : ℕ) → is_in t x ≡ true → is_in s x ≡ true)
      × ((x : ℕ) → s.lowest_sequence_number ≤ x → is_in t x ≡ is_in s x)
decode_ack_set-encode_ack_set s buffer rest h k room =
    let whole =
      (Puts-encode_ack_set s).room (encoder buffer) refl room
      ∙ write_room (encoder buffer) (ack_set_bytes s) refl room in
    (
      received_set s,
      rw whole (decode_ack_set-append s rest h k),
      λ x. (received_set-is_in s x).0,
      λ x. (received_set-is_in s x).1,
    )
