-- ===== src/Club/Message/Wire.antt =====
-- The bytes of the messages of src/club/message.h, and what is read from them.
use libclub.Prelude.{
  ℕ, ◌≤◌, ◌≡◌, refl, ap, ◌∙◌, Bool, List, ◌++◌, length, arith, append_assoc, if◌then◌else◌,
}
use libclub.Binary.Encoder.{Encoder, encoder}
use libclub.Binary.Encoder.Write.{Puts, Puts-seq, write_room}
use libclub.Binary.Decoder.{Decoder, decoder, set_error}
use libclub.Binary.Codec.{Codec}
use libclub.Binary.Codec.Words.{u8_codec}
use libclub.Binary.Serialize.Sequence.{
  vector_bytes, VectorFits, Puts-encode_vector, decode_vector-append_within,
}
use libclub.Club.MessageId.{Uuid, lt}
use libclub.Club.Message.{
  max_datagram_size, Fuse, UserData, Ack, encode_fuse, decode_fuse, encode_user_data,
  decode_user_data, encode_ack, decode_ack,
}
use libclub.Club.Message.Parts.{
  append3, decode_header-append, decode_ack_data-append, Puts-encode_header, Puts-encode_ack_data,
  HeaderFits, AckDataFits, header_bytes, ack_data_bytes,
}

module _ (uuid : Codec Uuid) (below : Uuid → Uuid → Bool) where
  -- What `f` puts into a buffer with room for it is what is read first.
  read_back :
      {A : Type 0} (read : Decoder → A) {f : Encoder → Encoder} {bs : List ℕ} {a : A}
      (buffer rest : List ℕ)
      → Puts f bs
      → length bs ≤ length buffer
      → read (decoder (bs ++ rest)) ≡ a
      → read (decoder ((f (encoder buffer)).before ++ rest)) ≡ a
  read_back read {f} {bs} buffer rest puts room h =
      ap (λ (e : Encoder). read (decoder (e.before ++ rest)))
        (puts.room (encoder buffer) refl room ∙ write_room (encoder buffer) bs refl room)
      ∙ h

  abbrev pub ack_bytes : Ack → List ℕ
  ack_bytes m = header_bytes uuid below m.header ++ ack_data_bytes uuid below m.ack_data

  -- An acknowledgement whose fields lie in their ranges, encoded into a buffer with room for it
  -- and followed by whatever bytes, is read back as it was, and the decoder stands behind it, with
  -- an error just if the preceding message is not below the acknowledged one.
  pub decode_ack-encode_ack :
      (m : Ack) (buffer rest : List ℕ)
      → HeaderFits uuid below m.header
      → AckDataFits uuid below m.ack_data
      → length (ack_bytes m) ≤ length buffer
      → decode_ack uuid below (decoder ((encode_ack uuid below (encoder buffer) m).before ++ rest))
        ≡ (
          m,
          if lt m.ack_data.prev_message_id m.ack_data.acked_message_id
              then decoder rest
              else set_error (decoder rest),
        )
  unfolding encode_ack decode_ack
  decode_ack-encode_ack m buffer rest hh ha room =
      let puts =
        Puts-seq (header_bytes uuid below m.header) (ack_data_bytes uuid below m.ack_data)
          (Puts-encode_header uuid below m.header) (Puts-encode_ack_data uuid below m.ack_data) in
      let first =
        decode_header-append uuid below m.header (ack_data_bytes uuid below m.ack_data ++ rest)
          hh in
      let second = decode_ack_data-append uuid below m.ack_data rest ha in
      read_back (decode_ack uuid below) buffer rest puts room (
        ap (λ l. decode_ack uuid below (decoder l))
          (append_assoc (header_bytes uuid below m.header) (ack_data_bytes uuid below m.ack_data)
            rest)
        ∙ ground (arith, first, second))

  abbrev pub user_data_bytes : UserData → List ℕ
  user_data_bytes m =
      header_bytes uuid below m.header
      ++ (ack_data_bytes uuid below m.ack_data ++ vector_bytes u8_codec m.bytes)

  -- A message of user data whose fields lie in their ranges, with sets of at most 1024 nodes and
  -- at most 5 MB of data, encoded into a buffer with room for it and followed by whatever bytes,
  -- is read back as it was, and the decoder stands behind it without an error.
  pub decode_user_data-encode_user_data :
      (m : UserData) (buffer rest : List ℕ)
      → HeaderFits uuid below m.header
      → AckDataFits uuid below m.ack_data
      → VectorFits u8_codec m.bytes
      → length m.bytes ≤ max_datagram_size
      → length (user_data_bytes m) ≤ length buffer
      → decode_user_data uuid below
          (decoder ((encode_user_data uuid below (encoder buffer) m).before ++ rest))
        ≡ (m, decoder rest)
  unfolding encode_user_data decode_user_data
  decode_user_data-encode_user_data m buffer rest hh ha hb small room =
      let data_bytes = vector_bytes u8_codec m.bytes in
      let puts =
        Puts-seq (header_bytes uuid below m.header)
          (ack_data_bytes uuid below m.ack_data ++ data_bytes)
          (Puts-encode_header uuid below m.header)
          (Puts-seq (ack_data_bytes uuid below m.ack_data) data_bytes
            (Puts-encode_ack_data uuid below m.ack_data) (Puts-encode_vector u8_codec m.bytes)) in
      let first =
        decode_header-append uuid below m.header
          (ack_data_bytes uuid below m.ack_data ++ (data_bytes ++ rest)) hh in
      let second = decode_ack_data-append uuid below m.ack_data (data_bytes ++ rest) ha in
      let third = decode_vector-append_within u8_codec m.bytes max_datagram_size rest hb small in
      read_back (decode_user_data uuid below) buffer rest puts room (
        ap (λ l. decode_user_data uuid below (decoder l))
          (append3 (header_bytes uuid below m.header) (ack_data_bytes uuid below m.ack_data)
            data_bytes rest)
        ∙ ground (arith, first, second, third))

  abbrev pub fuse_bytes : Fuse → List ℕ
  fuse_bytes m =
      header_bytes uuid below m.header
      ++ (ack_data_bytes uuid below m.ack_data ++ uuid.bytes m.with_node)

  pub decode_fuse-encode_fuse :
      (m : Fuse) (buffer rest : List ℕ)
      → HeaderFits uuid below m.header
      → AckDataFits uuid below m.ack_data
      → uuid.Fits m.with_node
      → length (fuse_bytes m) ≤ length buffer
      → decode_fuse uuid below
          (decoder ((encode_fuse uuid below (encoder buffer) m).before ++ rest))
        ≡ (m, decoder rest)
  unfolding encode_fuse decode_fuse
  decode_fuse-encode_fuse m buffer rest hh ha hw room =
      let node = uuid.bytes m.with_node in
      let puts =
        Puts-seq (header_bytes uuid below m.header) (ack_data_bytes uuid below m.ack_data ++ node)
          (Puts-encode_header uuid below m.header)
          (Puts-seq (ack_data_bytes uuid below m.ack_data) node
            (Puts-encode_ack_data uuid below m.ack_data) (uuid.puts m.with_node)) in
      let first =
        decode_header-append uuid below m.header
          (ack_data_bytes uuid below m.ack_data ++ (node ++ rest)) hh in
      let second = decode_ack_data-append uuid below m.ack_data (node ++ rest) ha in
      let third = uuid.get_bytes m.with_node rest hw in
      read_back (decode_fuse uuid below) buffer rest puts room (
        ap (λ l. decode_fuse uuid below (decoder l))
          (append3 (header_bytes uuid below m.header) (ack_data_bytes uuid below m.ack_data) node
            rest)
        ∙ ground (arith, first, second, third))
