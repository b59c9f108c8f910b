-- ===== src/Club/Message/Parts.antt =====
-- The bytes of the header and of the acknowledgement in the messages of src/club/message.h.
use libclub.Prelude.{ℕ, ◌≤◌, ◌≡◌, refl, ap, ◌∙◌, Bool, List, ◌++◌, length, arith, append_assoc}
use libclub.Binary.Encoder.Write.{Puts, Puts-seq}
use libclub.Binary.Decoder.{decoder}
use libclub.Binary.Codec.{Codec}
use libclub.Binary.Codec.Words.{u32_codec}
use libclub.Binary.Serialize.Sequence.{items_bytes, vector_bytes, Puts-put_items}
use libclub.Binary.Serialize.Containers.Ascending.{SetFits, decode_flat_set-append_within}
use libclub.Binary.Serialize.Containers.{encode_flat_set}
use libclub.Club.MessageId.{Uuid, MessageId}
use libclub.Club.Message.{
  max_node_count, Header, AckData, encode_message_id, decode_message_id, encode_header,
  decode_header, encode_ack_data, decode_ack_data,
}

pub append3 : (a b c rest : List ℕ) → (a ++ (b ++ c)) ++ rest ≡ a ++ (b ++ (c ++ rest))
append3 a b c rest = append_assoc a (b ++ c) rest ∙ ap (λ l. a ++ l) (append_assoc b c rest)

pub append4 :
    (a b c d rest : List ℕ) → (a ++ (b ++ (c ++ d))) ++ rest ≡ a ++ (b ++ (c ++ (d ++ rest)))
append4 a b c d rest = append_assoc a (b ++ (c ++ d)) rest ∙ ap (λ l. a ++ l) (append3 b c d rest)

module _ (uuid : Codec Uuid) (below : Uuid → Uuid → Bool) where
  abbrev pub UuidsFit : List Uuid → Type 0
  UuidsFit l = SetFits uuid below l × (length l ≤ max_node_count)

  abbrev pub MessageIdFits : MessageId → Type 0
  MessageIdFits mid = u32_codec.Fits mid.timestamp × uuid.Fits mid.original_poster

  pub record HeaderFits (h : Header) : Type 0 where
    pub poster : uuid.Fits h.original_poster
    pub stamp : u32_codec.Fits h.time_stamp
    pub config : MessageIdFits h.config_id
    pub visited : UuidsFit h.visited

  pub record AckDataFits (a : AckData) : Type 0 where
    pub acked : MessageIdFits a.acked_message_id
    pub prev : MessageIdFits a.prev_message_id
    pub neighbors : UuidsFit a.neighbors

  abbrev pub message_id_bytes : MessageId → List ℕ
  message_id_bytes mid = u32_codec.bytes mid.timestamp ++ uuid.bytes mid.original_poster

  abbrev pub header_bytes : Header → List ℕ
  header_bytes h =
      uuid.bytes h.original_poster
      ++ (u32_codec.bytes h.time_stamp
          ++ (message_id_bytes h.config_id ++ vector_bytes uuid h.visited))

  abbrev pub ack_data_bytes : AckData → List ℕ
  ack_data_bytes a =
      message_id_bytes a.acked_message_id
      ++ (message_id_bytes a.prev_message_id ++ vector_bytes uuid a.neighbors)

  pub decode_message_id-append :
      (mid : MessageId) (rest : List ℕ)
      → MessageIdFits mid
      → decode_message_id uuid below (decoder (message_id_bytes mid ++ rest)) ≡ (mid, decoder rest)
  unfolding decode_message_id
  decode_message_id-append mid rest fits =
      rw
        (
          append_assoc,
          u32_codec.get_bytes mid.timestamp (uuid.bytes mid.original_poster ++ rest) fits.0,
          uuid.get_bytes mid.original_poster rest fits.1,
        )
        refl

  pub decode_header-append :
      (h : Header) (rest : List ℕ)
      → HeaderFits h
      → decode_header uuid below (decoder (header_bytes h ++ rest)) ≡ (h, decoder rest)
  unfolding decode_header
  decode_header-append h rest fits =
      let tail = vector_bytes uuid h.visited ++ rest in
      let config = message_id_bytes h.config_id ++ tail in
      let stamp = u32_codec.bytes h.time_stamp ++ config in
      let first = uuid.get_bytes h.original_poster stamp fits.poster in
      let second = u32_codec.get_bytes h.time_stamp config fits.stamp in
      let third = decode_message_id-append h.config_id tail fits.config in
      let fourth =
        decode_flat_set-append_within uuid below h.visited max_node_count rest fits.visited.0
          fits.visited.1 in
      ap (λ l. decode_header uuid below (decoder l))
        (append4 (uuid.bytes h.original_poster) (u32_codec.bytes h.time_stamp)
          (message_id_bytes h.config_id) (vector_bytes uuid h.visited) rest)
      ∙ ground (arith, first, second, third, fourth)

  pub decode_ack_data-append :
      (a : AckData) (rest : List ℕ)
      → AckDataFits a
      → decode_ack_data uuid below (decoder (ack_data_bytes a ++ rest)) ≡ (a, decoder rest)
  unfolding decode_ack_data
  decode_ack_data-append a rest fits =
      let tail = vector_bytes uuid a.neighbors ++ rest in
      let prev = message_id_bytes a.prev_message_id ++ tail in
      let first = decode_message_id-append a.acked_message_id prev fits.acked in
      let second = decode_message_id-append a.prev_message_id tail fits.prev in
      let third =
        decode_flat_set-append_within uuid below a.neighbors max_node_count rest fits.neighbors.0
          fits.neighbors.1 in
      ap (λ l. decode_ack_data uuid below (decoder l))
        (append3 (message_id_bytes a.acked_message_id) (message_id_bytes a.prev_message_id)
          (vector_bytes uuid a.neighbors) rest)
      ∙ ground (arith, first, second, third)

  -- What is written
  pub Puts-encode_message_id :
      (mid : MessageId) → Puts (λ e. encode_message_id uuid below e mid) (message_id_bytes mid)
  unfolding encode_message_id
  Puts-encode_message_id mid =
      Puts-seq (u32_codec.bytes mid.timestamp) (uuid.bytes mid.original_poster)
        (u32_codec.puts mid.timestamp) (uuid.puts mid.original_poster)

  pub Puts-encode_flat_set :
      (l : List Uuid) → Puts (λ e. encode_flat_set uuid e l) (vector_bytes uuid l)
  Puts-encode_flat_set l =
      Puts-seq (u32_codec.bytes (length l)) (items_bytes uuid l) (u32_codec.puts (length l))
        (Puts-put_items uuid l)

  pub Puts-encode_header : (h : Header) → Puts (λ e. encode_header uuid below e h) (header_bytes h)
  unfolding encode_header
  Puts-encode_header h =
      Puts-seq (uuid.bytes h.original_poster)
        (u32_codec.bytes h.time_stamp
          ++ (message_id_bytes h.config_id ++ vector_bytes uuid h.visited))
        (uuid.puts h.original_poster)
        (Puts-seq (u32_codec.bytes h.time_stamp)
          (message_id_bytes h.config_id ++ vector_bytes uuid h.visited)
          (u32_codec.puts h.time_stamp)
          (Puts-seq (message_id_bytes h.config_id) (vector_bytes uuid h.visited)
            (Puts-encode_message_id h.config_id) (Puts-encode_flat_set h.visited)))

  pub Puts-encode_ack_data :
      (a : AckData) → Puts (λ e. encode_ack_data uuid below e a) (ack_data_bytes a)
  unfolding encode_ack_data
  Puts-encode_ack_data a =
      Puts-seq (message_id_bytes a.acked_message_id)
        (message_id_bytes a.prev_message_id ++ vector_bytes uuid a.neighbors)
        (Puts-encode_message_id a.acked_message_id)
        (Puts-seq (message_id_bytes a.prev_message_id) (vector_bytes uuid a.neighbors)
          (Puts-encode_message_id a.prev_message_id) (Puts-encode_flat_set a.neighbors))
