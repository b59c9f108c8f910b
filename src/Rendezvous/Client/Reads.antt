-- ===== src/Rendezvous/Client/Reads.antt =====
-- What include/rendezvous/client.h reads from the messages of src/rendezvous/handler.h.
use libclub.Prelude.{
  zero, ℕ, ◌+◌, ◌^◌, ◌<◌, ◌≤◌, ◌≡◌, refl, ap, ◌∙◌, Bool, List, [], ◌∷◌, ◌++◌, ◌==◌, if◌then◌else◌,
  length, replicate, length-replicate, arith, length-append, Bool-cases, inl, inr,
}
use libclub.Binary.Encoder.{Encoder, encoder}
use libclub.Binary.Encoder.Write.{Puts, Puts-seq, be16, be32, write_room}
use libclub.Binary.Decoder.{decoder}
use libclub.Binary.Decoder.Read.{get_u8-append, get_u16-append, get_u32-append}
use libclub.Binary.Codec.Words.{u8_codec, u16_codec}
use libclub.Rendezvous.Wire.{
  cookie, header_size, method_match, method_reflector, Address, v4, v6, Endpoint, put_endpoint,
  address_size, predicted, is_symmetric, bool_byte, payload, reflector_message,
}
use libclub.Rendezvous.Wire.Bytes.{
  IsEndpoint, endpoint_bytes, header_bytes, Puts-write_header, Puts-put_endpoint,
  length-address_bytes,
}
use libclub.Rendezvous.Client.{get_match, by_method, on_recv, connected, reflector}
use libclub.Rendezvous.Client.Endpoints.{get_endpoint-append}

-- The bytes of a match behind the method.
abbrev match_bytes : Endpoint → Endpoint → Endpoint → ℕ → List ℕ
match_bytes reflexive_ep told int_ep flag =
    endpoint_bytes reflexive_ep ++ (endpoint_bytes told ++ (endpoint_bytes int_ep ++ (flag ∷ [])))

Puts-match :
    (reflexive_ep told int_ep : Endpoint) (flag : ℕ)
    → Puts
        (λ e.
          u8_codec.put (put_endpoint (put_endpoint (put_endpoint e reflexive_ep) told) int_ep) flag)
        (match_bytes reflexive_ep told int_ep flag)
Puts-match reflexive_ep told int_ep flag =
    Puts-seq (endpoint_bytes reflexive_ep)
      (endpoint_bytes told ++ (endpoint_bytes int_ep ++ (flag ∷ [])))
      (Puts-put_endpoint reflexive_ep)
      (Puts-seq (endpoint_bytes told) (endpoint_bytes int_ep ++ (flag ∷ []))
        (Puts-put_endpoint told)
        (Puts-seq (endpoint_bytes int_ep) (flag ∷ []) (Puts-put_endpoint int_ep)
          (u8_codec.puts flag)))

-- A buffer of the size of what is put into it holds just that.
pub before_of_Puts :
    {f : Encoder → Encoder} {bs : List ℕ} (n : ℕ)
    → Puts f bs
    → length bs ≤ n
    → (f (encoder (replicate n 0))).before ≡ bs
before_of_Puts {f} {bs} n p room =
    let fits : length bs ≤ length (replicate n 0) = omega (arith, length-replicate n zero) in
    ap (λ (e : Encoder). e.before)
      (p.room (encoder (replicate n 0)) refl fits
        ∙ write_room (encoder (replicate n 0)) bs refl fits)

on_recv-header_bytes :
    (same_address : Address → Address → Bool) (size method : ℕ) (body : List ℕ)
    → length (method ∷ body) ≤ size
    → size < 2 ^ 16
    → on_recv same_address (header_bytes 1 size ++ (method ∷ body))
      ≡ by_method same_address method (decoder body)
unfolding on_recv
on_recv-header_bytes same_address size method body inside small =
    let rest = method ∷ body in
    ground (
      arith,
      get_u16-append (2 ^ 15 + 1) (be16 size ++ (be32 cookie ++ rest)),
      get_u16-append size (be32 cookie ++ rest) small,
      get_u32-append cookie rest,
      get_u8-append method body,
    )

get_match-match_bytes :
    (same_address : Address → Address → Bool) (reflexive_ep told int_ep : Endpoint) (flag : Bool)
    → IsEndpoint reflexive_ep
    → IsEndpoint told
    → IsEndpoint int_ep
    → get_match same_address (decoder (match_bytes reflexive_ep told int_ep (bool_byte flag)))
      ≡ connected (if same_address reflexive_ep.address told.address then int_ep else told) flag
unfolding get_match
get_match-match_bytes same_address reflexive_ep told int_ep flag hr ht hi = ground (
  arith,
  get_endpoint-append reflexive_ep
      (endpoint_bytes told ++ (endpoint_bytes int_ep ++ (bool_byte flag ∷ []))) hr,
  get_endpoint-append told (endpoint_bytes int_ep ++ (bool_byte flag ∷ [])) ht,
  get_endpoint-append int_ep (bool_byte flag ∷ []) hi,
  get_u8-append (bool_byte flag) [],
)

predicted-IsEndpoint :
    (ext_ep : Endpoint) (reflected_port : ℕ)
    → IsEndpoint ext_ep
    → IsEndpoint (predicted ext_ep reflected_port)
unfolding predicted
predicted-IsEndpoint ext_ep reflected_port h = elim (Bool-cases (reflected_port == 0)) [
  | inl y ↦ rw (predicted, y) h
  | inr n ↦ rw (predicted, n) (record { address = h.address; port = omega arith })
]

predicted_address :
    (ext_ep : Endpoint) (reflected_port : ℕ)
    → (predicted ext_ep reflected_port).address ≡ ext_ep.address
unfolding predicted
predicted_address ext_ep reflected_port = ground arith

length-endpoint_bytes :
    (ep : Endpoint) → IsEndpoint ep → length (endpoint_bytes ep) ≡ 3 + address_size ep.address
length-endpoint_bytes ep h = omega (arith, length-address_bytes ep.address h.address)

length-match_bytes :
    (reflexive_ep told int_ep : Endpoint) (flag : ℕ)
    → IsEndpoint reflexive_ep
    → IsEndpoint told
    → IsEndpoint int_ep
    → length (match_bytes reflexive_ep told int_ep flag)
      ≡ (3 + address_size reflexive_ep.address)
        + (3 + address_size told.address)
        + (3 + address_size int_ep.address)
        + 1
length-match_bytes reflexive_ep told int_ep flag hr ht hi = omega (
  arith,
  length-append (endpoint_bytes reflexive_ep)
      (endpoint_bytes told ++ (endpoint_bytes int_ep ++ (flag ∷ []))),
  length-append (endpoint_bytes told) (endpoint_bytes int_ep ++ (flag ∷ [])),
  length-append (endpoint_bytes int_ep) (flag ∷ []),
  length-endpoint_bytes reflexive_ep hr,
  length-endpoint_bytes told ht,
  length-endpoint_bytes int_ep hi,
)

pub address_size_small : (a : Address) → address_size a ≤ 16
address_size_small (v4 a) = omega arith
address_size_small (v6 bytes) = omega arith

-- From the message of a match of three endpoints of valid addresses and ports, the client connects
-- to the internal endpoint of the other one if its own external address is the same, and else to
-- the external one, with the port that is predicted; and it learns whether the other one is behind
-- a symmetric NAT.
pub on_recv-payload :
    (same_address : Address → Address → Bool) (reflexive_ep ext_ep int_ep : Endpoint)
    (reflected_port : ℕ)
    → IsEndpoint reflexive_ep
    → IsEndpoint ext_ep
    → IsEndpoint int_ep
    → on_recv same_address (payload reflexive_ep ext_ep int_ep reflected_port)
      ≡ connected
          (if same_address reflexive_ep.address ext_ep.address
            then int_ep
            else predicted ext_ep reflected_port)
          (is_symmetric ext_ep reflected_port)
unfolding payload by_method
on_recv-payload same_address reflexive_ep ext_ep int_ep reflected_port hr he hi =
    let told = predicted ext_ep reflected_port in
    let ht = predicted-IsEndpoint ext_ep reflected_port he in
    let flag = is_symmetric ext_ep reflected_port in
    let body = match_bytes reflexive_ep told int_ep (bool_byte flag) in
    let size =
      1
      + (3 + address_size reflexive_ep.address)
      + (3 + address_size told.address)
      + (3 + address_size int_ep.address)
      + 1 in
    let length_is = length-match_bytes reflexive_ep told int_ep (bool_byte flag) hr ht hi in
    let puts = Puts-seq (header_bytes 1 size) (method_match ∷ body) (Puts-write_header 1 size) (
      Puts-seq (method_match ∷ []) body (u8_codec.puts method_match)
        (Puts-match reflexive_ep told int_ep (bool_byte flag))) in
    let written = before_of_Puts (header_size + size) puts (omega (arith, length_is)) in
    let small : size < 2 ^ 16 = omega (
      arith,
      address_size_small reflexive_ep.address,
      address_size_small told.address,
      address_size_small int_ep.address,
    ) in
    ap (on_recv same_address) written
    ∙ on_recv-header_bytes same_address size method_match body (omega (arith, length_is)) small
    ∙ by_match
  where
    by_match :
        by_method same_address method_match (
          decoder (
            match_bytes reflexive_ep
              (predicted ext_ep reflected_port)
              int_ep
              (bool_byte (is_symmetric ext_ep reflected_port))))
        ≡ connected
            (if same_address reflexive_ep.address ext_ep.address
              then int_ep
              else predicted ext_ep reflected_port)
            (is_symmetric ext_ep reflected_port)
    by_match =
        get_match-match_bytes same_address reflexive_ep (predicted ext_ep reflected_port) int_ep
          (is_symmetric ext_ep reflected_port) hr (predicted-IsEndpoint ext_ep reflected_port he) hi
        ∙ ap
            (λ a.
              connected
                (if same_address reflexive_ep.address a
                  then int_ep
                  else predicted ext_ep reflected_port)
                (is_symmetric ext_ep reflected_port))
            (predicted_address ext_ep reflected_port)

-- The client learns the port from the answer of `respond_with_reflector`.
pub on_recv-reflector_message :
    (same_address : Address → Address → Bool) (port : ℕ)
    → port < 2 ^ 16
    → on_recv same_address (reflector_message port) ≡ reflector port
unfolding reflector_message by_method
on_recv-reflector_message same_address port small =
    let size = header_size + 4 in
    let body = 0 ∷ be16 port in
    let puts = Puts-seq (header_bytes 1 size) (method_reflector ∷ body) (Puts-write_header 1 size) (
      Puts-seq (method_reflector ∷ []) body (u8_codec.puts method_reflector)
        (Puts-seq (0 ∷ []) (be16 port) (u8_codec.puts 0) (u16_codec.puts port))) in
    let written = before_of_Puts (header_size + 4) puts (omega arith) in
    ap (on_recv same_address) written
    ∙ on_recv-header_bytes same_address size method_reflector body (omega arith) (omega arith)
    ∙ ground (arith, get_u8-append 0 (be16 port), get_u16-append port [] small)
