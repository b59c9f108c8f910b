-- ===== src/Transport/Message.antt =====
-- The messages of include/club/transport: message_type.h, out_message.h, in_message_part.h and
-- in_message_full.h. A buffer is the list of its bytes.
pub mod Wire
pub mod Send
pub mod Keep
pub mod Whole
mod Tests
use libclub.Prelude.{
  ℕ, suc, ◌+◌, ◌-◌, ◌%◌, ◌^◌, Bool, true, false, ◌&&◌, List, [], ◌∷◌, Option, none, some, ltb, ◌==◌,
  if◌then◌else◌, min, length, take, drop,
}
use libclub.Binary.Encoder
use libclub.Binary.Encoder.{Encoder, encode_u8, encode_u16, encode_u32, put_raw, remaining_size}
use libclub.Binary.Decoder
use libclub.Binary.Decoder.{Decoder, get_u8, get_u16, get_u32}
use libclub.Transport.Word.{SequenceNumber}

-- `other` is a value of the enum's type that names no enumerator.
pub data MessageType : Type 0 where
  sync keep_alive unreliable reliable close : MessageType
  other : ℕ → MessageType

abbrev pub code : MessageType → ℕ
code sync = 0
code keep_alive = 1
code unreliable = 2
code reliable = 3
code close = 4
code (other n) = n

unfoldable pub of_code : ℕ → MessageType
of_code n =
    if n == 0
    then sync
    else if n == 1
    then keep_alive
    else if n == 2
    then unreliable
    else if n == 3
    then reliable
    else if n == 4
    then close
    else other n

unfoldable pub decode_message_type : Decoder → MessageType × Decoder
decode_message_type d =
    let (value, d1) = get_u8 d in (of_code value, if ltb 4 value then Decoder.set_error d1 else d1)

pub record Header : Type 0 where
  pub type : MessageType
  pub sequence_number : SequenceNumber
  pub original_size : ℕ
  pub start_position : ℕ
  pub chunk_size : ℕ

pub encode_header : Encoder → Header → Encoder
encode_header e h =
    let e1 = Encoder.put encode_u8 e (code h.type) in
    let e2 = Encoder.put encode_u32 e1 h.sequence_number in
    let e3 = Encoder.put encode_u16 e2 h.original_size in
    let e4 = Encoder.put encode_u16 e3 h.start_position in Encoder.put encode_u16 e4 h.chunk_size

abbrev pub header_size : ℕ
header_size = 11

abbrev pub u16 : ℕ → ℕ
u16 n = n % 2 ^ 16

pub record OutMessage : Type 0 where
  pub resend_until_acked : Bool
  pub bytes_already_sent : ℕ
  pub header : Header
  pub payload : List ℕ
  pub is_dirty : Bool

-- The constructor.
unfoldable pub out_message : Bool → MessageType → SequenceNumber → List ℕ → OutMessage
out_message resend type sn bytes = record {
  resend_until_acked = resend;
  bytes_already_sent = 0;
  header = record {
    type = type;
    sequence_number = sn;
    original_size = u16 (length bytes);
    start_position = 0;
    chunk_size = u16 (length bytes);
  };
  payload = bytes;
  is_dirty = false;
}

pub reset_payload : OutMessage → List ℕ → OutMessage
reset_payload m new_payload = if m.is_dirty then m else record m { payload = new_payload }

abbrev pub payload_size : OutMessage → ℕ
payload_size m = length m.payload

pub fully_sent : OutMessage → Bool
fully_sent m = m.bytes_already_sent == payload_size m

-- How many bytes of the payload from `start` on fit behind a header. The one caller passes a start
-- that is not above the size, where the difference does not wrap around, and tests the room first.
abbrev pub chunk_room : Encoder → OutMessage → ℕ → ℕ
chunk_room e m start = min (payload_size m - start) (remaining_size e - header_size)

-- The result is the encoder, the message, and the returned size of the encoded payload.
pub encode_header_and_payload : Encoder → OutMessage → ℕ → Encoder × OutMessage × ℕ
encode_header_and_payload e m start =
    let m' = record m { is_dirty = true } in
    let size = chunk_room e m start in
    let h = record (m.header) {
      start_position = u16 (m.header.start_position + start);
      chunk_size = u16 size;
    } in
    if ltb (remaining_size e) header_size
    then (Encoder.set_error e, m', 0)
    else (put_raw (encode_header e h) (take size (drop start m.payload)), m', u16 size)

-- `encode` of an OutMessage; the message is changed in place.
pub encode_out_message : Encoder → OutMessage → Encoder × OutMessage
encode_out_message e m =
    let m1 = if fully_sent m then record m { bytes_already_sent = 0 } else m in
    let (e', m2, size) = encode_header_and_payload e m1 (u16 m1.bytes_already_sent) in
    if e'.was_error
    then (e', m2)
    else (e', record m2 { bytes_already_sent = m2.bytes_already_sent + size })

-- `encoder.put` of an OutMessage.
abbrev pub put_out_message : Encoder → OutMessage → Encoder × OutMessage
put_out_message e m = if e.was_error then (e, m) else encode_out_message e m

pub record InMessageFull : Type 0 where
  pub type : MessageType
  pub sequence_number : SequenceNumber
  pub size : ℕ
  pub payload : List ℕ

pub record InMessagePart : Type 0 where
  pub type : MessageType
  pub sequence_number : SequenceNumber
  pub original_size : ℕ
  pub chunk_start : ℕ
  pub chunk_size : ℕ
  pub payload : List ℕ
  pub header_and_payload : List ℕ

pub is_complete : InMessagePart → Bool
is_complete m = m.chunk_start == 0 && m.original_size == m.chunk_size

pub get_complete_message : InMessagePart → Option InMessageFull
get_complete_message m =
    if is_complete m
    then some (record {
      type = m.type;
      sequence_number = m.sequence_number;
      size = m.chunk_size;
      payload = m.payload;
    })
    else none

-- A value before it is decoded. Its fields are not set in the source, and not read after an error.
abbrev pub no_part : InMessagePart
no_part = record {
  type = sync;
  sequence_number = 0;
  original_size = 0;
  chunk_start = 0;
  chunk_size = 0;
  payload = [];
  header_and_payload = [];
}

unfoldable pub decode_in_message_part : Decoder → InMessagePart × Decoder
decode_in_message_part d =
    let (type, d1) = Decoder.get sync decode_message_type d in
    let (sn, d2) = get_u32 d1 in
    let (original_size, d3) = get_u16 d2 in
    let (chunk_start, d4) = get_u16 d3 in
    let (chunk_size, d5) = get_u16 d4 in
    let fields = record no_part {
      type = type;
      sequence_number = sn;
      original_size = original_size;
      chunk_start = chunk_start;
      chunk_size = chunk_size;
    } in
    let consumed = Decoder.size d - Decoder.size d5 in
    if d.was_error
    then (no_part, d)
    else if d5.was_error
    then (fields, d5)
    else if ltb (Decoder.size d5) chunk_size
    then (fields, Decoder.set_error d5)
    else (
      record fields {
        payload = take chunk_size d5.bytes;
        header_and_payload = take (chunk_size + consumed) d.bytes;
      },
      Decoder.skip d5 chunk_size,
    )
