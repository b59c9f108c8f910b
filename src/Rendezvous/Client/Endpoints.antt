-- ===== src/Rendezvous/Client/Endpoints.antt =====
-- What include/rendezvous/client.h reads from the bytes of an endpoint.
use libclub.Prelude.{ℕ, ◌^◌, ◌<◌, ◌≡◌, refl, List, ◌++◌, length, arith}
use libclub.Binary.Encoder.Write.{be16, be32}
use libclub.Binary.Decoder.{decoder}
use libclub.Binary.Decoder.Read.{get_u8-append, get_u16-append}
use libclub.Rendezvous.Wire.{Address, v4, v6, Endpoint, ipv4_tag, ipv6_tag}
use libclub.Rendezvous.Wire.Bytes.{
  IsAddress, IsEndpoint, endpoint_bytes, get_address_v4-append, get_address_v6-append,
}
use libclub.Rendezvous.Client.{get_endpoint}

get_endpoint_v4 :
    (a port : ℕ) (rest : List ℕ)
    → a < 2 ^ 32
    → port < 2 ^ 16
    → let ep : Endpoint = record { address = v4 a; port = port } in
      get_endpoint (decoder (endpoint_bytes ep ++ rest)) ≡ (ep, decoder rest)
unfolding get_endpoint
get_endpoint_v4 a port rest fits small = ground (
  arith,
  get_u8-append ipv4_tag (be16 port ++ (be32 a ++ rest)),
  get_u16-append port (be32 a ++ rest) small,
  get_address_v4-append a rest fits,
)

get_endpoint_v6 :
    (bytes : List ℕ) (port : ℕ) (rest : List ℕ)
    → length bytes ≡ 16
    → port < 2 ^ 16
    → let ep : Endpoint = record { address = v6 bytes; port = port } in
      get_endpoint (decoder (endpoint_bytes ep ++ rest)) ≡ (ep, decoder rest)
unfolding get_endpoint
get_endpoint_v6 bytes port rest fits small = ground (
  arith,
  get_u8-append ipv6_tag (be16 port ++ (bytes ++ rest)),
  get_u16-append port (bytes ++ rest) small,
  get_address_v6-append bytes rest fits,
)

pub get_endpoint-append :
    (ep : Endpoint) (rest : List ℕ)
    → IsEndpoint ep
    → get_endpoint (decoder (endpoint_bytes ep ++ rest)) ≡ (ep, decoder rest)
get_endpoint-append ep rest h = by_address ep.address refl h.address
  where
    by_address :
        (a : Address)
        → ep.address ≡ a
        → IsAddress a
        → get_endpoint (decoder (endpoint_bytes ep ++ rest)) ≡ (ep, decoder rest)
    by_address (v4 a) e fits = rw e (get_endpoint_v4 a ep.port rest fits h.port)
    by_address (v6 bytes) e fits = rw e (get_endpoint_v6 bytes ep.port rest fits h.port)
