-- ===== src/Rendezvous/Client.antt =====
-- include/rendezvous/client.h: the messages that the client sends, and what it does with those that it
-- receives. Whether two addresses are the same is the comparison of boost::asio, a parameter.
pub mod Endpoints
pub mod Reads
use libclub.Prelude.{
  ℕ, ◌+◌, ◌^◌, ◌%◌, ◌/◌, Bool, true, false, ◌||◌, not, List, ◌==◌, if◌then◌else◌, replicate,
}
use libclub.Binary.Encoder.{Encoder, encoder}
use libclub.Binary.Decoder
use libclub.Binary.Decoder.{Decoder, decoder, get_u8, get_u16, get_u32}
use libclub.Binary.Codec.Words.{u8_codec, u16_codec, u32_codec}
use libclub.Binary.Serialize.Containers.{decode_address_v4, decode_address_v6}
use libclub.Rendezvous.Wire.{
  header_size, cookie, method_match, method_reflector, method_reflected, client_method_fetch,
  client_method_close, client_method_fetch_as_host, client_method_get_reflector, ipv4_tag, ipv6_tag,
  Address, v4, v6, Endpoint, write_header, put_tag, put_address, address_size,
}

-- What a received packet leads to: nothing but the next receive, the error for a version that the
-- server does not know, the endpoint of the reflector, the reflected port, or the call of the handler.
pub data Received : Type 0 where
  ignored : Received
  no_protocol_option : Received
  reflector : ℕ → Received
  reflected : ℕ → Received
  connected : Endpoint → Bool → Received

-- The body of the loop over the three endpoints
pub get_endpoint : Decoder → Endpoint × Decoder
get_endpoint d =
    let (ipv, d1) = get_u8 d in
    let (port, d2) = get_u16 d1 in
    let (a4, d4) = decode_address_v4 d2 in
    let (a6, d6) = decode_address_v6 d2 in
    if ipv == ipv4_tag
    then (record { address = v4 a4; port = port }, d4)
    else if ipv == ipv6_tag
    then (record { address = v6 a6; port = port }, d6)
    else (record { address = v4 0; port = 0 }, Decoder.set_error d2)

-- `handle_reflector_message` and `handle_reflected_port`
abbrev pub get_port : (ℕ → Received) → Decoder → Received
get_port answer d =
    let (reserved, d1) = get_u8 d in
    let (port, d2) = get_u16 d1 in
    if d2.was_error || not (reserved == 0) then ignored else answer port

module _ (same_address : Address → Address → Bool) where
  -- A message of METHOD_MATCH
  pub get_match : Decoder → Received
  get_match d =
      let (reflexive_ep, d1) = get_endpoint d in
      let (ext_ep, d2) = get_endpoint d1 in
      let (int_ep, d3) = get_endpoint d2 in
      let (is_sym, d4) = get_u8 d3 in
      if d4.was_error
      then ignored
      else if same_address reflexive_ep.address ext_ep.address
      then connected int_ep (not (is_sym == 0))
      else connected ext_ep (not (is_sym == 0))

  -- The switch over the method
  unfoldable pub by_method : ℕ → Decoder → Received
  by_method method d =
      if method == method_match
      then get_match d
      else if method == method_reflector
      then get_port reflector d
      else if method == method_reflected
      then get_port reflected d
      else ignored

  pub on_recv : List ℕ → Received
  on_recv bytes =
      let (plex_and_version, d1) = get_u16 (decoder bytes) in
      let (length, d2) = get_u16 d1 in
      let (his_cookie, d3) = get_u32 d2 in
      let (method, d4) = get_u8 (Decoder.shrink d3 length) in
      if d3.was_error || not (plex_and_version / 2 ^ 14 % 4 == 2) || not (his_cookie == cookie)
      then ignored
      else if plex_and_version % 2 ^ 14 == 0
      then no_protocol_option
      else by_method method d4

unfoldable pub construct_fetch_message : Bool → ℕ → Endpoint → ℕ → List ℕ
construct_fetch_message is_host service internal_ep reflected_port =
    let a = internal_ep.address in
    let payload_size = 1 + 4 + 2 + 2 + 1 + address_size a in
    let e = write_header (encoder (replicate (header_size + payload_size) 0)) 1 payload_size in
    let method = if is_host then client_method_fetch_as_host else client_method_fetch in
    let e1 = u16_codec.put (u32_codec.put (u8_codec.put e method) service) reflected_port in
    (put_address (put_tag (u16_codec.put e1 internal_ep.port) a) a).before

-- The messages without a body
pub construct_message : ℕ → List ℕ
construct_message method =
    (u8_codec.put (write_header (encoder (replicate (header_size + 1) 0)) 1 1) method).before

abbrev pub construct_get_reflector_message : List ℕ
construct_get_reflector_message = construct_message client_method_get_reflector

abbrev pub construct_close_message : List ℕ
construct_close_message = construct_message client_method_close
