-- ===== src/Club/Message.antt =====
-- src/club/message.h and src/club/serialize/message_id.h: the messages of the group and their
-- encodings, over the encoding of a uuid and the order of uuids.
pub mod Parts
pub mod Wire
mod Tests
use libclub.Prelude.{ℕ, Bool, true, false, not, List, [], ◌++◌, ltb, if◌then◌else◌}
use libclub.Binary.Encoder.{Encoder}
use libclub.Binary.Decoder
use libclub.Binary.Decoder.{Decoder, set_error}
use libclub.Binary.Codec.{Codec}
use libclub.Binary.Codec.Words.{u8_codec, u16_codec, u32_codec}
use libclub.Binary.Serialize.{encode_vector, decode_vector}
use libclub.Binary.Serialize.Containers.{encode_flat_set, decode_flat_set}
use libclub.Club.MessageId.{Uuid, TimeStamp, MessageId, no_message, lt}

abbrev pub max_node_count : ℕ
max_node_count = 1024

abbrev pub max_datagram_size : ℕ
max_datagram_size = 5242880

-- A flat_set is the list of its items in its order.
pub record Header : Type 0 where
  pub original_poster : Uuid
  pub time_stamp : TimeStamp
  pub config_id : MessageId
  pub visited : List Uuid

pub record AckData : Type 0 where
  pub acked_message_id : MessageId
  pub prev_message_id : MessageId
  pub neighbors : List Uuid

pub record Fuse : Type 0 where
  pub header : Header
  pub ack_data : AckData
  pub with_node : Uuid

pub record PortOffer : Type 0 where
  pub header : Header
  pub addressor : Uuid
  pub internal_port : ℕ
  pub external_port : ℕ

pub record UserData : Type 0 where
  pub header : Header
  pub ack_data : AckData
  pub bytes : List ℕ

pub record Ack : Type 0 where
  pub header : Header
  pub ack_data : AckData

abbrev pub no_ack_data : AckData
no_ack_data = record { acked_message_id = no_message; prev_message_id = no_message; neighbors = [] }

-- The messages that go into the log
pub data LogMessage : Type 0 where
  fuse : Fuse → LogMessage
  user_data : UserData → LogMessage

unfoldable pub header : LogMessage → Header
header (fuse m) = m.header
header (user_data m) = m.header

unfoldable pub message_id_of : Header → MessageId
message_id_of h = record { timestamp = h.time_stamp; original_poster = h.original_poster }

unfoldable pub message_id : LogMessage → MessageId
message_id (fuse m) = message_id_of m.header
message_id (user_data m) = message_id_of m.header

unfoldable pub ack_data : LogMessage → AckData
ack_data (fuse m) = m.ack_data
ack_data (user_data m) = m.ack_data

module _ (uuid : Codec Uuid) (below : Uuid → Uuid → Bool) where
  abbrev pub no_header : Header
  no_header = record {
    original_poster = uuid.default;
    time_stamp = 0;
    config_id = no_message;
    visited = [];
  }

  abbrev pub get_uuid : Decoder → Uuid × Decoder
  get_uuid d = Decoder.get uuid.default uuid.get d

  abbrev pub get_uuids : Decoder → List Uuid × Decoder
  get_uuids d = Decoder.get [] (λ d'. decode_flat_set uuid below d' max_node_count) d

  pub encode_message_id : Encoder → MessageId → Encoder
  encode_message_id e mid = uuid.put (u32_codec.put e mid.timestamp) mid.original_poster

  pub decode_message_id : Decoder → MessageId × Decoder
  decode_message_id d =
      let (timestamp, d1) = u32_codec.get d in
      let (original_poster, d2) = get_uuid d1 in
      if d.was_error
      then (no_message, d)
      else if d1.was_error
      then (record no_message { timestamp = timestamp }, d1)
      else (record { timestamp = timestamp; original_poster = original_poster }, d2)

  abbrev pub get_message_id : Decoder → MessageId × Decoder
  get_message_id d = Decoder.get no_message decode_message_id d

  pub encode_header : Encoder → Header → Encoder
  encode_header e msg =
      encode_flat_set uuid
        (encode_message_id (u32_codec.put (uuid.put e msg.original_poster) msg.time_stamp)
          msg.config_id)
        msg.visited

  pub decode_header : Decoder → Header × Decoder
  decode_header d =
      let (original_poster, d1) = get_uuid d in
      let (time_stamp, d2) = Decoder.get 0 u32_codec.get d1 in
      let (config_id, d3) = get_message_id d2 in
      let (visited, d4) = get_uuids d3 in
      (
        record {
          original_poster = original_poster;
          time_stamp = time_stamp;
          config_id = config_id;
          visited = visited;
        },
        d4,
      )

  abbrev pub get_header : Decoder → Header × Decoder
  get_header d = Decoder.get no_header decode_header d

  pub encode_ack_data : Encoder → AckData → Encoder
  encode_ack_data e msg =
      encode_flat_set uuid
        (encode_message_id (encode_message_id e msg.acked_message_id) msg.prev_message_id)
        msg.neighbors

  pub decode_ack_data : Decoder → AckData × Decoder
  decode_ack_data d =
      let (acked_message_id, d1) = get_message_id d in
      let (prev_message_id, d2) = get_message_id d1 in
      let (neighbors, d3) = get_uuids d2 in
      (
        record {
          acked_message_id = acked_message_id;
          prev_message_id = prev_message_id;
          neighbors = neighbors;
        },
        d3,
      )

  abbrev pub get_ack_data : Decoder → AckData × Decoder
  get_ack_data d = Decoder.get no_ack_data decode_ack_data d

  pub encode_fuse : Encoder → Fuse → Encoder
  encode_fuse e msg =
      uuid.put (encode_ack_data (encode_header e msg.header) msg.ack_data) msg.with_node

  pub decode_fuse : Decoder → Fuse × Decoder
  decode_fuse d =
      let (header, d1) = get_header d in
      let (ack_data, d2) = get_ack_data d1 in
      let (with_node, d3) = get_uuid d2 in
      (record { header = header; ack_data = ack_data; with_node = with_node }, d3)

  pub encode_port_offer : Encoder → PortOffer → Encoder
  encode_port_offer e msg =
      u16_codec.put
        (u16_codec.put (uuid.put (encode_header e msg.header) msg.addressor) msg.internal_port)
        msg.external_port

  pub decode_port_offer : Decoder → PortOffer × Decoder
  decode_port_offer d =
      let (header, d1) = get_header d in
      let (addressor, d2) = get_uuid d1 in
      let (internal_port, d3) = Decoder.get 0 u16_codec.get d2 in
      let (external_port, d4) = Decoder.get 0 u16_codec.get d3 in
      (
        record {
          header = header;
          addressor = addressor;
          internal_port = internal_port;
          external_port = external_port;
        },
        d4,
      )

  pub encode_user_data : Encoder → UserData → Encoder
  encode_user_data e msg =
      encode_vector u8_codec (encode_ack_data (encode_header e msg.header) msg.ack_data) msg.bytes

  pub decode_user_data : Decoder → UserData × Decoder
  decode_user_data d =
      let (header, d1) = get_header d in
      let (ack_data, d2) = get_ack_data d1 in
      let (bytes, d3) = Decoder.get [] (λ d'. decode_vector u8_codec d' max_datagram_size) d2 in
      (record { header = header; ack_data = ack_data; bytes = bytes }, d3)

  pub encode_ack : Encoder → Ack → Encoder
  encode_ack e msg = encode_ack_data (encode_header e msg.header) msg.ack_data

  pub decode_ack : Decoder → Ack × Decoder
  decode_ack d =
      let (header, d1) = get_header d in
      let (ack_data, d2) = get_ack_data d1 in
      (
        record { header = header; ack_data = ack_data },
        if not (lt ack_data.prev_message_id ack_data.acked_message_id) then set_error d2 else d2,
      )
