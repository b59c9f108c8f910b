-- ===== src/Rendezvous/Server/Reads.antt =====
-- What src/rendezvous/server.h reads from the messages of include/rendezvous/client.h.
use libclub.Prelude.{
  append-nil, ℕ, ◌+◌, ◌^◌, ◌<◌, ◌≡◌, refl, ap, sym, ◌∙◌, Bool, true, false, List, [], ◌∷◌, ◌++◌,
  take_all, if◌then◌else◌, length, arith,
}
use libclub.Binary.Encoder.Write.{Puts-seq, be16, be32}
use libclub.Binary.Decoder.{decoder}
use libclub.Binary.Decoder.Read.{get_u8-append, get_u16-append, get_u32-append}
use libclub.Binary.Codec.Words.{u8_codec, u16_codec, u32_codec}
use libclub.Binary.Serialize.Containers.{decode_address_v6}
use libclub.Rendezvous.Wire.{
  cookie, header_size, client_method_fetch, client_method_fetch_as_host, Address, v4, v6, Endpoint,
  address_size, ipv4_tag, ipv6_tag,
}
use libclub.Rendezvous.Wire.Bytes.{
  IsAddress, IsEndpoint, tag, address_bytes, header_bytes, Puts-write_header, Puts-put_tag,
  Puts-put_address, get_address_v4-append, get_address_v6-append, length-address_bytes,
}
use libclub.Rendezvous.Client.{construct_fetch_message}
use libclub.Rendezvous.Client.Reads.{before_of_Puts, address_size_small}
use libclub.Generic.SortedSet.{Order}
use libclub.Rendezvous.Server.{
  fetches, read_fetch, read_request, Server, answer, handle, handle_payload, on_receive,
}

-- A message of version 1 is handed to `handle`, without its header.
on_receive-header_bytes :
    (o : Order Endpoint) (reflector_port : ℕ) (s : Server) (sender : Endpoint) (body : List ℕ)
    → length body < 2 ^ 16
    → on_receive o reflector_port s sender (header_bytes 1 (length body) ++ body)
      ≡ answer o reflector_port s sender (read_request (decoder body))
unfolding on_receive handle_payload handle
on_receive-header_bytes o reflector_port s sender body small =
    let size = length body in
    ground (
      arith,
      get_u16-append (2 ^ 15 + 1) (be16 size ++ (be32 cookie ++ body)),
      get_u16-append size (be32 cookie ++ body) small,
      get_u32-append cookie body,
      take_all size body,
    )

-- The bytes of a fetch behind the method.
abbrev fetch_bytes : ℕ → Endpoint → ℕ → List ℕ
fetch_bytes service internal_ep reflected_port =
    be32 service
    ++ (be16 reflected_port
        ++ (be16 internal_ep.port ++ (tag internal_ep.address ∷ address_bytes internal_ep.address)))

read_fetch_v4 :
    (is_host : Bool) (service a port reflected_port : ℕ)
    → service < 2 ^ 32
    → reflected_port < 2 ^ 16
    → port < 2 ^ 16
    → a < 2 ^ 32
    → let ep : Endpoint = record { address = v4 a; port = port } in
      read_fetch is_host (decoder (fetch_bytes service ep reflected_port))
      ≡ fetches is_host service reflected_port ep
unfolding read_fetch
read_fetch_v4 is_host service a port reflected_port hs hr hp ha =
    let address = ipv4_tag ∷ be32 a in
    ground (
      arith,
      get_u32-append service (be16 reflected_port ++ (be16 port ++ address)) hs,
      get_u16-append reflected_port (be16 port ++ address) hr,
      get_u16-append port address hp,
      get_u8-append ipv4_tag (be32 a),
      get_address_v4-append a [] ha,
    )

get_address_v6_all :
    (bytes : List ℕ) → length bytes ≡ 16 → decode_address_v6 (decoder bytes) ≡ (bytes, decoder [])
get_address_v6_all bytes h =
    ap (λ l. decode_address_v6 (decoder l)) (sym (append-nil bytes))
    ∙ get_address_v6-append bytes [] h

read_fetch_v6 :
    (is_host : Bool) (service : ℕ) (bytes : List ℕ) (port reflected_port : ℕ)
    → service < 2 ^ 32
    → reflected_port < 2 ^ 16
    → port < 2 ^ 16
    → length bytes ≡ 16
    → let ep : Endpoint = record { address = v6 bytes; port = port } in
      read_fetch is_host (decoder (fetch_bytes service ep reflected_port))
      ≡ fetches is_host service reflected_port ep
unfolding read_fetch
read_fetch_v6 is_host service bytes port reflected_port hs hr hp hb =
    let address = ipv6_tag ∷ bytes in
    ground (
      arith,
      get_u32-append service (be16 reflected_port ++ (be16 port ++ address)) hs,
      get_u16-append reflected_port (be16 port ++ address) hr,
      get_u16-append port address hp,
      get_u8-append ipv6_tag bytes,
      get_address_v6_all bytes hb,
    )

read_fetch-fetch_bytes :
    (is_host : Bool) (service : ℕ) (internal_ep : Endpoint) (reflected_port : ℕ)
    → service < 2 ^ 32
    → reflected_port < 2 ^ 16
    → IsEndpoint internal_ep
    → read_fetch is_host (decoder (fetch_bytes service internal_ep reflected_port))
      ≡ fetches is_host service reflected_port internal_ep
read_fetch-fetch_bytes is_host service internal_ep reflected_port hs hp h =
    by_address internal_ep.address refl h.address
  where
    by_address :
        (a : Address)
        → internal_ep.address ≡ a
        → IsAddress a
        → read_fetch is_host (decoder (fetch_bytes service internal_ep reflected_port))
          ≡ fetches is_host service reflected_port internal_ep
    by_address (v4 a) e fits =
        rw e (read_fetch_v4 is_host service a internal_ep.port reflected_port hs hp h.port fits)
    by_address (v6 bytes) e fits =
        rw e (read_fetch_v6 is_host service bytes internal_ep.port reflected_port hs hp h.port fits)

abbrev fetch_method : Bool → ℕ
fetch_method is_host = if is_host then client_method_fetch_as_host else client_method_fetch

read_request-fetch_method :
    (is_host : Bool) (body : List ℕ)
    → read_request (decoder (fetch_method is_host ∷ body)) ≡ read_fetch is_host (decoder body)
unfolding read_request
read_request-fetch_method true body = ground (arith, get_u8-append client_method_fetch_as_host body)
read_request-fetch_method false body = ground (arith, get_u8-append client_method_fetch body)

-- The message that a client constructs to fetch, with a service and a reflected port in their
-- ranges and a valid internal endpoint, is read by the server as just that request of its sender.
pub on_receive-construct_fetch_message :
    (o : Order Endpoint) (reflector_port : ℕ) (s : Server) (sender : Endpoint) (is_host : Bool)
    (service : ℕ) (internal_ep : Endpoint) (reflected_port : ℕ)
    → service < 2 ^ 32
    → reflected_port < 2 ^ 16
    → IsEndpoint internal_ep
    → on_receive o reflector_port s sender
        (construct_fetch_message is_host service internal_ep reflected_port)
      ≡ answer o reflector_port s sender (fetches is_host service reflected_port internal_ep)
unfolding construct_fetch_message
on_receive-construct_fetch_message o reflector_port s sender is_host service internal_ep
      reflected_port hs hp h =
    let a = internal_ep.address in
    let rest = fetch_bytes service internal_ep reflected_port in
    let body = fetch_method is_host ∷ rest in
    let size = 1 + 4 + 2 + 2 + 1 + address_size a in
    let length_is : length body ≡ size = omega (arith, length-address_bytes a h.address) in
    let puts = Puts-seq (header_bytes 1 size) body (Puts-write_header 1 size) (
      Puts-seq (fetch_method is_host ∷ []) rest (u8_codec.puts (fetch_method is_host)) (
        Puts-seq (be32 service)
          (be16 reflected_port ++ (be16 internal_ep.port ++ (tag a ∷ address_bytes a)))
          (u32_codec.puts service)
          (Puts-seq (be16 reflected_port) (be16 internal_ep.port ++ (tag a ∷ address_bytes a))
            (u16_codec.puts reflected_port)
            (Puts-seq (be16 internal_ep.port) (tag a ∷ address_bytes a)
              (u16_codec.puts internal_ep.port)
              (Puts-seq (tag a ∷ []) (address_bytes a) (Puts-put_tag a) (Puts-put_address a)))))) in
    let written = before_of_Puts (header_size + size) puts (omega (arith, length_is)) in
    let received =
      ap (on_receive o reflector_port s sender)
        (written ∙ ap (λ n. header_bytes 1 n ++ body) (sym length_is)) in
    received
    ∙ on_receive-header_bytes o reflector_port s sender body
        (omega (arith, length_is, address_size_small a))
    ∙ ap (answer o reflector_port s sender) (
        read_request-fetch_method is_host rest
        ∙ read_fetch-fetch_bytes is_host service internal_ep reflected_port hs hp h)
