-- ===== src/Transport/Transfer.antt =====
-- A message on its way: one call of `encode` of include/club/transport/out_message.h for each packet,
-- and at the other end `decode` of in_message_part.h and `update_payload` of pending_message.h.
pub mod Whole
mod Tests
use libclub.Prelude.{ℕ, ◌+◌, ◌-◌, List, [], ◌∷◌, Option, none, some, length, replicate}
use libclub.Binary.Encoder.{encoder}
use libclub.Binary.Decoder.{decoder}
use libclub.Transport.Message.{
  MessageType, OutMessage, encode_out_message, decode_in_message_part, header_size,
}
use libclub.Transport.Word.{SequenceNumber}
use libclub.Transport.PendingMessage.{PendingMessage, update_payload}

-- One packet, in the given buffer.
pub transfer : OutMessage → PendingMessage → List ℕ → Option (OutMessage × PendingMessage)
transfer m pm buffer =
    let (e', m') = encode_out_message (encoder buffer) m in
    let (part, d) = decode_in_message_part (decoder e'.before) in
    elim (update_payload pm part.chunk_start part.payload) [
      | none ↦ none
      | some pm' ↦ some (m', pm')
    ]

-- One packet after the other.
pub transfer_all :
    OutMessage → PendingMessage → List (List ℕ) → Option (OutMessage × PendingMessage)
transfer_all m pm [] = some (m, pm)
transfer_all m pm (buffer ∷ buffers) = elim (transfer m pm buffer) [
  | none ↦ none
  | some r ↦ transfer_all r.0 r.1 buffers
]

-- How many bytes of payload a packet has room for, behind one header.
abbrev pub capacity : List (List ℕ) → ℕ
capacity [] = 0
capacity (buffer ∷ buffers) = (length buffer - header_size) + capacity buffers

-- What `of_part` starts from.
abbrev pub blank : MessageType → SequenceNumber → ℕ → PendingMessage
blank type sn size = record {
  type = type;
  sequence_number = sn;
  size = size;
  bytes = replicate size 0;
  part_info = [];
}
