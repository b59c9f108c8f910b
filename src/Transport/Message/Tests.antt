-- ===== src/Transport/Message/Tests.antt =====
-- The results on the messages of include/club/transport at a concrete message.
use libclub.Prelude.{
  ℕ, ◌+◌, ◌≡◌, refl, true, false, List, [], ◌∷◌, ◌++◌, arith, length, drop, replicate,
}
use libclub.Binary.Encoder.{Encoder, encoder}
use libclub.Binary.Decoder.{decoder}
use libclub.Transport.Message.{
  reliable, of_code, Header, OutMessage, out_message, encode_out_message, decode_in_message_part,
}
use libclub.Transport.Message.Wire.{FitsHeader}
use libclub.Transport.Message.Send.{
  IsSendable, next_start, next_chunk, received_part, out_message-IsSendable, send_receive,
}

abbrev hello : OutMessage
hello = out_message true reliable 7 (104 ∷ 101 ∷ 108 ∷ 108 ∷ 111 ∷ [])

reliable_known : of_code 3 ≡ reliable
unfolding of_code
reliable_known = refl

hello-IsSendable : IsSendable hello
hello-IsSendable =
    out_message-IsSendable true reliable 7 (104 ∷ 101 ∷ 108 ∷ 108 ∷ 111 ∷ []) reliable_known
      (omega arith) (omega arith) (omega arith)

-- Room for the header and two bytes.
abbrev buffer : Encoder
buffer = encoder (replicate 13 0)

send_receive_example :
    let (e', m') = encode_out_message buffer hello in
    (bs : List ℕ) × (e'.before ≡ [] ++ bs)
    × (e'.was_error ≡ false)
    × (decode_in_message_part (decoder (bs ++ (9 ∷ [])))
        ≡ (received_part buffer hello, decoder (9 ∷ [])))
    × IsSendable m'
    × (m'.bytes_already_sent ≡ next_start hello + length (next_chunk buffer hello))
    × (next_chunk buffer hello ++ drop m'.bytes_already_sent hello.payload
        ≡ drop (next_start hello) hello.payload)
send_receive_example = send_receive buffer (9 ∷ []) hello-IsSendable refl (omega arith)

abbrev part_header : Header
part_header = record {
  type = reliable;
  sequence_number = 7;
  original_size = 5;
  start_position = 2;
  chunk_size = 3;
}

part_header-FitsHeader : FitsHeader part_header
part_header-FitsHeader = record {
  type_known = reliable_known;
  type_small = omega arith;
  sn_small = omega arith;
  original_small = omega arith;
  start_small = omega arith;
  chunk_small = omega arith;
}
