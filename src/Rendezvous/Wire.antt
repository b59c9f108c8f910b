-- ===== src/Rendezvous/Wire.antt =====
-- What src/rendezvous/handler.h and include/rendezvous/client.h send each other.
pub mod Bytes
use libclub.Prelude.{
  ℕ, ◌+◌, ◌-◌, ◌^◌, ◌%◌, ◌/◌, Bool, true, false, ◌&&◌, ◌||◌, not, List, [], ◌∷◌, Option, none, some,
  ltb, ◌==◌, if◌then◌else◌, length, take, replicate,
}
use libclub.Binary.Encoder.{Encoder, encoder}
use libclub.Binary.Decoder
use libclub.Binary.Decoder.{Decoder, decoder, get_u8, get_u16, get_u32}
use libclub.Binary.Codec.Words.{u8_codec, u16_codec, u32_codec}
use libclub.Binary.Serialize.Containers.{
  encode_address_v4, encode_address_v6, decode_address_v4, decode_address_v6,
}

-- include/rendezvous/constants.h
abbrev pub header_size : ℕ
header_size = 8

abbrev pub cookie : ℕ
cookie = 0x3223B553

abbrev pub method_match : ℕ
method_match = 1

abbrev pub method_reflector : ℕ
method_reflector = 2

abbrev pub method_reflected : ℕ
method_reflected = 3

abbrev pub client_method_fetch : ℕ
client_method_fetch = 0

abbrev pub client_method_close : ℕ
client_method_close = 1

abbrev pub client_method_fetch_as_host : ℕ
client_method_fetch_as_host = 2

abbrev pub client_method_get_reflector : ℕ
client_method_get_reflector = 3

abbrev pub ipv4_tag : ℕ
ipv4_tag = 1

abbrev pub ipv6_tag : ℕ
ipv6_tag = 2

-- An address of version 4 is a number, one of version 6 is 16 bytes.
pub data Address : Type 0 where
  v4 : ℕ → Address
  v6 : List ℕ → Address

pub record Endpoint : Type 0 where
  pub address : Address
  pub port : ℕ

-- `plex | version`, for the versions 0 and 1
pub write_header : Encoder → ℕ → ℕ → Encoder
write_header e version payload_size =
    u32_codec.put (u16_codec.put (u16_codec.put e (2 ^ 15 + version)) payload_size) cookie

abbrev pub put_tag : Encoder → Address → Encoder
put_tag e (v4 a) = u8_codec.put e ipv4_tag
put_tag e (v6 bytes) = u8_codec.put e ipv6_tag

abbrev pub put_address : Encoder → Address → Encoder
put_address e (v4 a) = encode_address_v4 e a
put_address e (v6 bytes) = encode_address_v6 e bytes

abbrev pub address_size : Address → ℕ
address_size (v4 a) = 4
address_size (v6 bytes) = 16

-- The body of the loop of `payload`
pub put_endpoint : Encoder → Endpoint → Encoder
put_endpoint e ep = put_address (u16_codec.put (put_tag e ep.address) ep.port) ep.address

-- The port that the other one is told of, where the ports of a client rise by the same step.
unfoldable pub predicted : Endpoint → ℕ → Endpoint
predicted ext_ep reflected_port =
    if reflected_port == 0
    then ext_ep
    else record ext_ep { port = (reflected_port + reflected_port + 2 ^ 16 - ext_ep.port) % 2 ^ 16 }

unfoldable pub is_symmetric : Endpoint → ℕ → Bool
is_symmetric ext_ep reflected_port =
    not (reflected_port == 0) && not (reflected_port == ext_ep.port)

abbrev pub bool_byte : Bool → ℕ
bool_byte false = 0
bool_byte true = 1

unfoldable pub payload : Endpoint → Endpoint → Endpoint → ℕ → List ℕ
payload reflexive_ep ext_ep int_ep reflected_port =
    let told = predicted ext_ep reflected_port in
    let payload_size =
      1
      + (3 + address_size reflexive_ep.address)
      + (3 + address_size told.address)
      + (3 + address_size int_ep.address)
      + 1 in
    let e = write_header (encoder (replicate (header_size + payload_size) 0)) 1 payload_size in
    let e1 = u8_codec.put e method_match in
    let e2 = put_endpoint (put_endpoint (put_endpoint e1 reflexive_ep) told) int_ep in
    (u8_codec.put e2 (bool_byte (is_symmetric ext_ep reflected_port))).before

-- `respond_with_reflector`; the vector is of the size of the encoder.
unfoldable pub reflector_message : ℕ → List ℕ
reflector_message reflector_port =
    let e = write_header (encoder (replicate (header_size + 4) 0)) 1 (header_size + 4) in
    (u16_codec.put (u8_codec.put (u8_codec.put e method_reflector) 0) reflector_port).before
