-- ===== src/Rendezvous/Server.antt =====
-- src/rendezvous/server.h and the parsing in src/rendezvous/handler.h: what the server does with a
-- packet.
pub mod Sound
pub mod Reads
use libclub.Prelude.{
  ℕ, ◌+◌, ◌^◌, ◌%◌, ◌/◌, Bool, true, false, ◌||◌, not, List, [], ◌∷◌, ◌++◌, Option, none, some,
  length, take, ltb, ◌==◌, if◌then◌else◌, replicate,
}
use libclub.Binary.Encoder.{encoder}
use libclub.Binary.Decoder.{Decoder, decoder, get_u8, get_u16, get_u32}
use libclub.Binary.Serialize.Containers.{decode_address_v4, decode_address_v6}
use libclub.Rendezvous.Wire.{
  header_size, cookie, client_method_fetch, client_method_close, client_method_fetch_as_host,
  client_method_get_reflector, ipv4_tag, ipv6_tag, v4, v6, Endpoint, write_header,
  reflector_message, payload,
}
use libclub.Generic.SortedSet.{Order}
use libclub.Rendezvous.Registry.{Registry, Match, forget, fetch}

-- What the handler reads from a message: nothing, which method, or that it is to forget the sender.
pub data Request : Type 0 where
  unreadable : Request
  forgets : Request
  asks_reflector : Request
  fetches : Bool → ℕ → ℕ → Endpoint → Request

-- The part of `handle` that reads what a client asks for.
pub read_fetch : Bool → Decoder → Request
read_fetch is_host d =
    let (service, d1) = get_u32 d in
    let (reflected_port, d2) = get_u16 d1 in
    let (internal_port, d3) = get_u16 d2 in
    let (ipv, d4) = get_u8 d3 in
    let (a4, d5) = decode_address_v4 d4 in
    let (a6, d6) = decode_address_v6 d4 in
    if ipv == ipv4_tag
    then if d5.was_error
      then forgets
      else fetches is_host service reflected_port (record { address = v4 a4; port = internal_port })
    else if ipv == ipv6_tag
    then if d6.was_error
      then forgets
      else fetches is_host service reflected_port (record { address = v6 a6; port = internal_port })
    else forgets

pub read_request : Decoder → Request
read_request d =
    let (client_method, d1) = get_u8 d in
    if d1.was_error
    then unreadable
    else if client_method == client_method_close
    then forgets
    else if client_method == client_method_fetch
    then read_fetch false d1
    else if client_method == client_method_fetch_as_host
    then read_fetch true d1
    else if client_method == client_method_get_reflector
    then asks_reflector
    else forgets

-- The packets sent to clients, other than those of a match, which the registry lists.
pub record Server : Type 0 where
  pub registry : Registry Endpoint
  pub replies : List (Endpoint × List ℕ)

-- `match`, the packets for both
pub match_packets : Match Endpoint → List (Endpoint × List ℕ)
match_packets m =
    (m.ep1_ext, payload m.ep1_ext m.ep2_ext m.ep2_int m.reflected_port2)
    ∷ (m.ep2_ext, payload m.ep2_ext m.ep1_ext m.ep1_int m.reflected_port1)
    ∷ []

abbrev pub send_to : Endpoint → List ℕ → Server → Server
send_to target payload s = record s { replies = s.replies ++ ((target, payload) ∷ []) }

abbrev pub with_registry : Server → Registry Endpoint → Server
with_registry s r = record s { registry = r }

module _ (o : Order Endpoint) (reflector_port : ℕ) where
  -- The rest of `handle`; `none` where an assertion fails.
  pub answer : Server → Endpoint → Request → Option Server
  answer s from unreadable = some s
  answer s from forgets = some (with_registry s (forget o from s.registry))
  answer s from asks_reflector = some (send_to from (reflector_message reflector_port) s)
  answer s from (fetches is_host service reflected_port internal_ep) =
      elim (fetch o from internal_ep reflected_port is_host service s.registry) [
        | none ↦ none
        | some r ↦ some (with_registry s r)
      ]

  pub handle : Server → Endpoint → Decoder → Option Server
  handle s from d = answer s from (read_request d)

  pub handle_payload : Server → ℕ → Endpoint → Decoder → Option Server
  handle_payload s version sender d =
      if version == 1
      then handle s sender d
      else some (send_to sender (write_header (encoder (replicate header_size 0)) 0 0).before s)

  pub on_receive : Server → Endpoint → List ℕ → Option Server
  on_receive s sender bytes =
      let (plex_and_version, d1) = get_u16 (decoder bytes) in
      let (size, d2) = get_u16 d1 in
      let (his_cookie, d3) = get_u32 d2 in
      if d3.was_error
      then some s
      else if ltb (length bytes) (size + header_size)
      then some s
      else if not (plex_and_version / 2 ^ 14 % 4 == 2) || not (his_cookie == cookie)
      then some s
      else handle_payload s (plex_and_version % 2 ^ 14) sender (decoder (take size d3.bytes))
