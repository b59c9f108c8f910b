-- ===== src/Club/Message/Tests.antt =====
-- The results on src/club/message.h at small messages, with uuids of eight bytes.
use libclub.Prelude.{◌≡◌, refl, [], ◌∷◌, ◌++◌, ltb, arith, replicate, if◌then◌else◌}
use libclub.Binary.Encoder.{encoder}
use libclub.Binary.Decoder.{decoder, set_error}
use libclub.Binary.Codec.Words.{u64_codec}
use libclub.Club.MessageId.{MessageId, lt}
use libclub.Club.Message.{
  Header, AckData, UserData, Ack, encode_ack, decode_ack, encode_user_data, decode_user_data,
}
use libclub.Club.Message.Parts.{HeaderFits, AckDataFits}
use libclub.Club.Message.Wire.{decode_ack-encode_ack, decode_user_data-encode_user_data}

abbrev some_id : MessageId
some_id = record { timestamp = 3; original_poster = 7 }

abbrev later_id : MessageId
later_id = record { timestamp = 4; original_poster = 2 }

abbrev some_header : Header
some_header = record {
  original_poster = 7;
  time_stamp = 5;
  config_id = some_id;
  visited = 2 ∷ 7 ∷ [];
}

abbrev some_ack_data : AckData
some_ack_data = record {
  acked_message_id = later_id;
  prev_message_id = some_id;
  neighbors = 2 ∷ [];
}

some_header-HeaderFits : HeaderFits u64_codec ltb some_header
some_header-HeaderFits = record {
  poster = omega arith;
  stamp = omega arith;
  config = (omega arith, omega arith);
  visited =
      (((omega arith, (omega arith, (omega arith, tt))), (tt, ((refl, tt), tt))), omega arith);
}

some_ack_data-AckDataFits : AckDataFits u64_codec ltb some_ack_data
some_ack_data-AckDataFits = record {
  acked = (omega arith, omega arith);
  prev = (omega arith, omega arith);
  neighbors = (((omega arith, (omega arith, tt)), (tt, tt)), omega arith);
}

abbrev some_ack : Ack
some_ack = record { header = some_header; ack_data = some_ack_data }

abbrev some_user_data : UserData
some_user_data = record { header = some_header; ack_data = some_ack_data; bytes = 104 ∷ 105 ∷ [] }

decode_ack-encode_ack_example :
    decode_ack u64_codec ltb
      (decoder ((encode_ack u64_codec ltb (encoder (replicate 200 0)) some_ack).before ++ (9 ∷ [])))
    ≡ (some_ack, if lt some_id later_id then decoder (9 ∷ []) else set_error (decoder (9 ∷ [])))
decode_ack-encode_ack_example =
    decode_ack-encode_ack u64_codec ltb some_ack (replicate 200 0) (9 ∷ []) some_header-HeaderFits
      some_ack_data-AckDataFits (omega arith)

decode_user_data-encode_user_data_example :
    decode_user_data u64_codec ltb (
      decoder (
        (encode_user_data u64_codec ltb (encoder (replicate 200 0)) some_user_data).before
        ++ (9 ∷ [])))
    ≡ (some_user_data, decoder (9 ∷ []))
decode_user_data-encode_user_data_example =
    decode_user_data-encode_user_data u64_codec ltb some_user_data (replicate 200 0) (9 ∷ [])
      some_header-HeaderFits some_ack_data-AckDataFits
      (omega arith, (omega arith, (omega arith, tt))) (omega arith) (omega arith)
