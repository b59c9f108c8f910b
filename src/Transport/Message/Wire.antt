-- ===== src/Transport/Message/Wire.antt =====
-- What a message looks like on the wire: out_message.h writes it and in_message_part.h reads it.
use libclub.Prelude.{
  ℕ, ◌+◌, ◌-◌, ◌^◌, ◌≤◌, ◌<◌, ◌≡◌, ◌∙◌, true, false, List, [], ◌∷◌, ◌++◌, arith, length, take, drop,
  length-append, length-take, length-drop, take-append, le→ltb,
}
use libclub.Binary.Encoder.{Encoder, put_raw, remaining_size}
use libclub.Binary.Encoder.Write.{
  Puts, Puts-seq, write, be16, be32, put_raw_lem, write_short, write_error,
}
use libclub.Binary.Decoder.{decoder}
use libclub.Binary.Decoder.Read.{get_u8-append, get_u16-append, get_u32-append, skip-append}
use libclub.Binary.Codec.Words.{u8_codec, u16_codec, u32_codec}
use libclub.Transport.Message.{
  code, of_code, decode_message_type, Header, encode_header, OutMessage, header_size, u16,
  chunk_room, encode_header_and_payload, decode_in_message_part,
}

abbrev pub header_bytes : Header → List ℕ
header_bytes h =
    code h.type
    ∷ (be32 h.sequence_number
        ++ (be16 h.original_size ++ (be16 h.start_position ++ be16 h.chunk_size)))

-- The fields lie in the ranges of their types, and the type names an enumerator.
pub record FitsHeader (h : Header) : Type 0 where
  pub type_known : of_code (code h.type) ≡ h.type
  pub type_small : code h.type ≤ 4
  pub sn_small : h.sequence_number < 2 ^ 32
  pub original_small : h.original_size < 2 ^ 16
  pub start_small : h.start_position < 2 ^ 16
  pub chunk_small : h.chunk_size < 2 ^ 16

pub Puts-encode_header : (h : Header) → Puts (λ e. encode_header e h) (header_bytes h)
unfolding encode_header
Puts-encode_header h =
    let type = u8_codec.puts (code h.type) in
    let sn = u32_codec.puts h.sequence_number in
    let original = u16_codec.puts h.original_size in
    let start = u16_codec.puts h.start_position in
    let chunk = u16_codec.puts h.chunk_size in
    let head = code h.type ∷ [] in
    Puts-seq (head ++ (be32 h.sequence_number ++ (be16 h.original_size ++ be16 h.start_position)))
      (be16 h.chunk_size)
      (Puts-seq (head ++ (be32 h.sequence_number ++ be16 h.original_size)) (be16 h.start_position)
        (Puts-seq (head ++ be32 h.sequence_number) (be16 h.original_size)
          (Puts-seq head (be32 h.sequence_number) type sn) original)
        start)
      chunk

pub Puts-put_raw : (bs : List ℕ) → Puts (λ e. put_raw e bs) bs
Puts-put_raw bs = record {
  room = λ e ok room. put_raw_lem e bs;
  short = λ e short. rw (put_raw_lem e bs) (write_short e bs short);
  error = λ e bad. put_raw_lem e bs ∙ write_error e bs bad;
}

-- The header of the chunk that is sent from `start` on, and its bytes.
abbrev pub chunk_header : OutMessage → ℕ → ℕ → Header
chunk_header m start size = record (m.header) {
  start_position = u16 (m.header.start_position + start);
  chunk_size = u16 size;
}

abbrev pub chunk_bytes : OutMessage → ℕ → ℕ → List ℕ
chunk_bytes m start size =
    header_bytes (chunk_header m start size) ++ take size (drop start m.payload)

-- A chunk of the size that `encode_header_and_payload` chooses has room behind its header.
pub length-chunk_bytes :
    (e : Encoder) (m : OutMessage) (start : ℕ)
    → e.was_error ≡ false
    → header_size ≤ length e.after
    → (length (chunk_bytes m start (chunk_room e m start)) ≤ length e.after)
      × (length (take (chunk_room e m start) (drop start m.payload)) ≡ chunk_room e m start)
length-chunk_bytes e m start ok room =
    let remaining : remaining_size e ≡ length e.after = ground arith in
    let size = chunk_room e m start in
    (
      omega (arith, length-take size (drop start m.payload)),
      omega (arith, length-take size (drop start m.payload), length-drop start m.payload),
    )

pub encode_header_and_payload_lem :
    (e : Encoder) (m : OutMessage) (start : ℕ)
    → e.was_error ≡ false
    → header_size ≤ length e.after
    → encode_header_and_payload e m start ≡ (
      write e (chunk_bytes m start (chunk_room e m start)),
      record m { is_dirty = true },
      u16 (chunk_room e m start),
    )
unfolding encode_header_and_payload
encode_header_and_payload_lem e m start ok room =
    let size = chunk_room e m start in
    let chunk = take size (drop start m.payload) in
    let all =
      Puts-seq (header_bytes (chunk_header m start size)) chunk
        (Puts-encode_header (chunk_header m start size)) (Puts-put_raw chunk) in
    let fits = length-chunk_bytes e m start ok room in
    let whole = all.room e ok (fits.0) in ground (arith, whole)

-- How many bytes the header and the chunk take.
consumed :
    (h : Header) (chunk rest : List ℕ)
    → length chunk + (length (header_bytes h ++ (chunk ++ rest)) - length (chunk ++ rest))
      ≡ length (header_bytes h ++ chunk)
consumed h chunk rest = omega arith

-- Reading the bytes of a header whose fields lie in their ranges and of a chunk of the size that
-- it names gives back the fields, the chunk, and both together, and leaves the decoder behind
-- them.
pub decode_in_message_part-append :
    (h : Header) (chunk rest : List ℕ)
    → FitsHeader h
    → length chunk ≡ h.chunk_size
    → decode_in_message_part (decoder (header_bytes h ++ (chunk ++ rest))) ≡ (
      record {
        type = h.type;
        sequence_number = h.sequence_number;
        original_size = h.original_size;
        chunk_start = h.start_position;
        chunk_size = h.chunk_size;
        payload = chunk;
        header_and_payload = header_bytes h ++ chunk;
      },
      decoder rest,
    )
unfolding decode_in_message_part decode_message_type
decode_in_message_part-append h chunk rest fits size =
    let tail = chunk ++ rest in
    let r4 = be16 h.chunk_size ++ tail in
    let r3 = be16 h.start_position ++ r4 in
    let r2 = be16 h.original_size ++ r3 in
    let r1 = be32 h.sequence_number ++ r2 in
    rw
      (
        get_u8-append (code h.type) r1,
        le→ltb 4 (code h.type) fits.type_small,
        get_u32-append h.sequence_number r2 fits.sn_small,
        get_u16-append h.original_size r3 fits.original_small,
        get_u16-append h.start_position r4 fits.start_small,
        get_u16-append h.chunk_size tail fits.chunk_small,
      )
      rw
      (
        ← size,
        le→ltb (length tail) (length chunk) (omega (arith, length-append chunk rest)),
        take-append chunk rest,
        skip-append chunk rest,
        fits.type_known,
      )
      (rw (consumed h chunk rest, take-append chunk rest))
