-- ===== src/Transport/Message/Whole.antt =====
-- `reset_payload` of out_message.h, and `get_complete_message` of in_message_part.h.
use libclub.Prelude.{ℕ, ◌+◌, ◌≤◌, ◌≡◌, true, false, List, some, length, take, take_all, arith}
use libclub.Binary.Encoder.{Encoder}
use libclub.Transport.Message.{
  InMessagePart, InMessageFull, OutMessage, reset_payload, encode_out_message,
  encode_header_and_payload, header_size, is_complete, get_complete_message,
}
use libclub.Transport.Message.Send.{received_part, next_start, next_size}

dirty-encode_out_message :
    (e : Encoder) (m : OutMessage) → (encode_out_message e m).1.is_dirty ≡ true
unfolding encode_out_message encode_header_and_payload
dirty-encode_out_message e m = ground arith

reset_payload_of_dirty : (m : OutMessage) (l : List ℕ) → m.is_dirty ≡ true → reset_payload m l ≡ m
unfolding reset_payload
reset_payload_of_dirty m l h = ground arith

-- After a call of `encode`, with an error or not, `reset_payload` changes nothing.
pub reset_payload-encode_out_message :
    (e : Encoder) (m : OutMessage) (new_payload : List ℕ)
    → reset_payload (encode_out_message e m).1 new_payload ≡ (encode_out_message e m).1
reset_payload-encode_out_message e m new_payload =
    reset_payload_of_dirty (encode_out_message e m).1 new_payload (dirty-encode_out_message e m)

-- Of a message of which nothing was sent yet, and which fits as a whole behind its header, the
-- part that the receiver reads is complete, and it hands on the message with its type, its number
-- and its whole payload.
pub get_complete_message-received_part :
    (e : Encoder) (m : OutMessage)
    → e.was_error ≡ false
    → (m.bytes_already_sent ≡ 0)
    → header_size + length m.payload ≤ length e.after
    → get_complete_message (received_part e m)
      ≡ some (record {
        type = m.header.type;
        sequence_number = m.header.sequence_number;
        size = length m.payload;
        payload = m.payload;
      })
unfolding get_complete_message is_complete
get_complete_message-received_part e m ok unsent room =
    let start : next_start m ≡ 0 = ground arith in
    let size : next_size e m ≡ length m.payload = ground arith in
    let whole : take (length m.payload) m.payload ≡ m.payload =
      take_all (length m.payload) m.payload (omega arith) in
    ground (arith, start, size, whole)

-- What is known of a part that is a whole message.
pub get_complete_message-some :
    (m : InMessagePart) {full : InMessageFull}
    → get_complete_message m ≡ some full
    → (m.chunk_start ≡ 0)
      × (m.original_size ≡ m.chunk_size)
      × (full.sequence_number ≡ m.sequence_number)
      × (full.payload ≡ m.payload)
unfolding get_complete_message is_complete
get_complete_message-some m h = ground arith

pub is_complete-true :
    (m : InMessagePart)
    → is_complete m ≡ true
    → (m.chunk_start ≡ 0) × (m.original_size ≡ m.chunk_size)
unfolding is_complete
is_complete-true m h = ground arith
