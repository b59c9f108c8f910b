-- ===== src/Transport/Message/Send.antt =====
-- A message that is sent in chunks (`encode` of out_message.h) and received (`decode` of
-- in_message_part.h).
use libclub.Prelude.{
  ℕ, ◌+◌, ◌^◌, ◌≤◌, ◌<◌, ◌≡◌, ap, ◌∙◌, sym, Bool, true, false, List, ◌++◌, arith, ◌==◌,
  if◌then◌else◌, length, take, drop, take-append-drop, Bool-cases, inl, inr,
}
use libclub.Binary.Encoder.{Encoder}
use libclub.Binary.Encoder.Write.{write, write_room, length-after-write, drop-add}
use libclub.Binary.Decoder.{decoder}
use libclub.Transport.Message.{
  MessageType, code, of_code, OutMessage, out_message, fully_sent, header_size, u16, chunk_room,
  encode_out_message, InMessagePart, decode_in_message_part,
}
use libclub.Transport.Message.Wire.{
  FitsHeader, chunk_header, chunk_bytes, encode_header_and_payload_lem, length-chunk_bytes,
  decode_in_message_part-append,
}

-- A message as the constructor makes it and `encode` keeps it.
pub record IsSendable (m : OutMessage) : Type 0 where
  pub fits : FitsHeader (m.header)
  pub from_start : m.header.start_position ≡ 0
  pub whole_size : m.header.original_size ≡ length m.payload
  pub sent_part : m.bytes_already_sent ≤ length m.payload

-- Where the next chunk begins: a message that has been sent whole starts again.
abbrev pub next_start : OutMessage → ℕ
next_start m = if m.bytes_already_sent == length m.payload then 0 else m.bytes_already_sent

-- How many bytes of the payload the next chunk has, and which.
abbrev pub next_size : Encoder → OutMessage → ℕ
next_size e m = chunk_room e m (next_start m)

abbrev pub next_chunk : Encoder → OutMessage → List ℕ
next_chunk e m = take (next_size e m) (drop (next_start m) m.payload)

-- The message after that chunk.
abbrev pub after_chunk : Encoder → OutMessage → OutMessage
after_chunk e m = record m { is_dirty = true; bytes_already_sent = next_start m + next_size e m }

-- The part that the receiver decodes: the message's type and number, its whole size, the
-- position of the chunk, and the chunk.
abbrev pub received_part : Encoder → OutMessage → InMessagePart
received_part e m = record {
  type = m.header.type;
  sequence_number = m.header.sequence_number;
  original_size = length m.payload;
  chunk_start = next_start m;
  chunk_size = next_size e m;
  payload = next_chunk e m;
  header_and_payload = chunk_bytes m (next_start m) (next_size e m);
}

pub out_message-IsSendable :
    (resend : Bool) (type : MessageType) (sn : ℕ) (payload : List ℕ)
    → of_code (code type) ≡ type
    → code type ≤ 4
    → sn < 2 ^ 32
    → length payload < 2 ^ 16
    → IsSendable (out_message resend type sn payload)
unfolding out_message
out_message-IsSendable resend type sn payload known small h k = ground arith

pub after_chunk-IsSendable :
    (e : Encoder) {m : OutMessage} → IsSendable m → IsSendable (after_chunk e m)
after_chunk-IsSendable e {m} s = record {
  fits = s.fits;
  from_start = s.from_start;
  whole_size = s.whole_size;
  sent_part = ground (arith, s.sent_part);
}

module _ (e : Encoder) {m : OutMessage} (s : IsSendable m) (ok : e.was_error ≡ false)
    (room : header_size ≤ length e.after) where
  u16_start : u16 (next_start m) ≡ next_start m
  u16_start = ground (arith, s.whole_size, s.fits.original_small, s.sent_part)

  u16_size : u16 (next_size e m) ≡ next_size e m
  u16_size = omega (arith, s.whole_size, s.fits.original_small)

  -- One call of `encode` with room for a header writes the chunk, and counts it as sent.
  pub encode_out_message_lem :
      encode_out_message e m
      ≡ (write e (chunk_bytes m (next_start m) (next_size e m)), after_chunk e m)
  unfolding encode_out_message fully_sent
  encode_out_message_lem =
      let written =
        length-after-write e (chunk_bytes m (next_start m) (next_size e m)) ok
          ((length-chunk_bytes e m (next_start m) ok room).0) in
      elim (Bool-cases (m.bytes_already_sent == length m.payload)) [
        | inl whole ↦ ground (
          arith,
          encode_header_and_payload_lem e (record m { bytes_already_sent = 0 }) 0 ok room,
          u16_size,
          written.0,
        )
        | inr part ↦ ground (
          arith,
          encode_header_and_payload_lem e m (u16 m.bytes_already_sent) ok room,
          u16_size,
          u16_start,
          written.0,
        )
      ]

  chunk_header-FitsHeader : FitsHeader (chunk_header m (next_start m) (next_size e m))
  chunk_header-FitsHeader = record {
    type_known = s.fits.type_known;
    type_small = s.fits.type_small;
    sn_small = s.fits.sn_small;
    original_small = s.fits.original_small;
    start_small = omega arith;
    chunk_small = omega arith;
  }

  pub decode-chunk_bytes :
      (rest : List ℕ)
      → decode_in_message_part (decoder (chunk_bytes m (next_start m) (next_size e m) ++ rest))
        ≡ (received_part e m, decoder rest)
  decode-chunk_bytes rest =
      let position : u16 (m.header.start_position + next_start m) ≡ next_start m =
        omega (arith, s.from_start, u16_start) in
      decode_in_message_part-append (chunk_header m (next_start m) (next_size e m)) (next_chunk e m)
        rest chunk_header-FitsHeader
        ((length-chunk_bytes e m (next_start m) ok room).1 ∙ sym u16_size)
      ∙ ground (arith, s.whole_size, u16_size, position)

-- A message as the constructor makes it and `encode` keeps it, put into an encoder without an
-- error and with room for a header: the decoder reads from the bytes written the type, the number,
-- the whole size, and as much of the payload from the next position on as fitted, with its
-- position, and stops behind them without an error; the sender counts just that chunk as sent, and
-- what is left to send is the rest of the payload.
pub send_receive :
    (e : Encoder) {m : OutMessage} (rest : List ℕ)
    → IsSendable m
    → e.was_error ≡ false
    → header_size ≤ length e.after
    → let (e', m') = encode_out_message e m in
      (bs : List ℕ) × (e'.before ≡ e.before ++ bs)
      × (e'.was_error ≡ false)
      × (decode_in_message_part (decoder (bs ++ rest)) ≡ (received_part e m, decoder rest))
      × IsSendable m'
      × (m'.bytes_already_sent ≡ next_start m + length (next_chunk e m))
      × (next_chunk e m ++ drop m'.bytes_already_sent m.payload ≡ drop (next_start m) m.payload)
send_receive e {m} rest s ok room =
    let sent = encode_out_message_lem e s ok room in
    let bs = chunk_bytes m (next_start m) (next_size e m) in
    let fits = length-chunk_bytes e m (next_start m) ok room in
    rw sent (
      bs,
      ap (λ k. k.before) (write_room e bs ok fits.0),
      (length-after-write e bs ok fits.0).0,
      decode-chunk_bytes e s ok room rest,
      after_chunk-IsSendable e s,
      ap (λ k. next_start m + k) (sym fits.1),
      ap (λ l. next_chunk e m ++ l) (sym (drop-add (next_start m) (next_size e m) m.payload))
          ∙ take-append-drop (next_size e m) (drop (next_start m) m.payload),
    )
