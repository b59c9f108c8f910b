-- ===== src/Rendezvous/Wire/Bytes.antt =====
-- The bytes of src/rendezvous/header.h and of the endpoints in src/rendezvous/handler.h, and how
-- include/rendezvous/client.h reads them.
use libclub.Prelude.{ℕ, ◌+◌, ◌^◌, ◌<◌, ◌≡◌, refl, sym, List, [], ◌∷◌, ◌++◌, length}
use libclub.Binary.Encoder.Write.{Puts, Puts-seq, be16, be32}
use libclub.Binary.Decoder.{decoder}
use libclub.Binary.Decoder.Read.{get_u32-append, get_raw-append}
use libclub.Binary.Codec.Words.{u8_codec, u16_codec, u32_codec}
use libclub.Binary.Serialize.Containers.{decode_address_v4, decode_address_v6}
use libclub.Transport.Message.Wire.{Puts-put_raw}
use libclub.Rendezvous.Wire.{
  cookie, ipv4_tag, ipv6_tag, Address, v4, v6, Endpoint, write_header, put_tag, put_address,
  address_size, put_endpoint,
}

abbrev pub tag : Address → ℕ
tag (v4 a) = ipv4_tag
tag (v6 bytes) = ipv6_tag

abbrev pub address_bytes : Address → List ℕ
address_bytes (v4 a) = be32 a
address_bytes (v6 bytes) = bytes

abbrev pub IsAddress : Address → Type 0
IsAddress (v4 a) = a < 2 ^ 32
IsAddress (v6 bytes) = length bytes ≡ 16

pub record IsEndpoint (ep : Endpoint) : Type 0 where
  pub address : IsAddress ep.address
  pub port : ep.port < 2 ^ 16

abbrev pub header_bytes : ℕ → ℕ → List ℕ
header_bytes version size = be16 (2 ^ 15 + version) ++ (be16 size ++ be32 cookie)

pub Puts-write_header :
    (version size : ℕ) → Puts (λ e. write_header e version size) (header_bytes version size)
unfolding write_header
Puts-write_header version size =
    Puts-seq (be16 (2 ^ 15 + version) ++ be16 size) (be32 cookie)
      (Puts-seq (be16 (2 ^ 15 + version)) (be16 size) (u16_codec.puts (2 ^ 15 + version))
        (u16_codec.puts size))
      (u32_codec.puts cookie)

pub Puts-put_tag : (a : Address) → Puts (λ e. put_tag e a) (tag a ∷ [])
Puts-put_tag (v4 a) = u8_codec.puts ipv4_tag
Puts-put_tag (v6 bytes) = u8_codec.puts ipv6_tag

pub Puts-put_address : (a : Address) → Puts (λ e. put_address e a) (address_bytes a)
Puts-put_address (v4 a) = u32_codec.puts a
Puts-put_address (v6 bytes) = Puts-put_raw bytes

pub length-address_bytes : (a : Address) → IsAddress a → length (address_bytes a) ≡ address_size a
length-address_bytes (v4 a) h = refl
length-address_bytes (v6 bytes) h = h

abbrev pub endpoint_bytes : Endpoint → List ℕ
endpoint_bytes ep = tag ep.address ∷ (be16 ep.port ++ address_bytes ep.address)

pub Puts-put_endpoint : (ep : Endpoint) → Puts (λ e. put_endpoint e ep) (endpoint_bytes ep)
unfolding put_endpoint
Puts-put_endpoint ep =
    Puts-seq ((tag ep.address ∷ []) ++ be16 ep.port) (address_bytes ep.address)
      (Puts-seq (tag ep.address ∷ []) (be16 ep.port) (Puts-put_tag ep.address)
        (u16_codec.puts ep.port))
      (Puts-put_address ep.address)

-- The address that is read behind its tag.
pub get_address_v4-append :
    (a : ℕ) (rest : List ℕ)
    → a < 2 ^ 32
    → decode_address_v4 (decoder (be32 a ++ rest)) ≡ (a, decoder rest)
get_address_v4-append a rest h = get_u32-append a rest h

pub get_address_v6-append :
    (bytes rest : List ℕ)
    → length bytes ≡ 16
    → decode_address_v6 (decoder (bytes ++ rest)) ≡ (bytes, decoder rest)
get_address_v6-append bytes rest h = rw (sym h) (get_raw-append bytes rest)
