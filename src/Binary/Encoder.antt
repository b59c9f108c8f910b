-- ===== src/Binary/Encoder.antt =====
-- binary::encoder (include/binary/encoder.h). `before` holds the bytes of the buffer from `start`
-- up to `begin`, `after` those from `begin` up to `end`; a pointer sum past `end` is a length test.
pub mod Write
use libclub.Prelude.{
  ℕ, zero, suc, ◌+◌, ◌-◌, ◌/◌, ◌%◌, ◌^◌, Bool, true, false, List, [], ◌∷◌, ◌++◌, ltb, if◌then◌else◌,
  length, take, drop,
}

pub record Encoder : Type 0 where
  pub before : List ℕ
  pub after : List ℕ
  pub was_error : Bool

-- The constructors over a buffer.
abbrev pub encoder : List ℕ → Encoder
encoder buffer = record { before = []; after = buffer; was_error = false }

abbrev pub written : Encoder → ℕ
written e = length e.before

abbrev pub remaining_size : Encoder → ℕ
remaining_size e = if e.was_error then 0 else length e.after

abbrev pub set_error : Encoder → Encoder
set_error e = record e { was_error = true }

abbrev pub skip : Encoder → ℕ → Encoder
skip e size =
    if e.was_error
    then e
    else if ltb (length e.after) size
    then set_error e
    else record e { before = e.before ++ take size e.after; after = drop size e.after }

-- `*(begin++) = value`. Every caller has compared `begin` with `end`.
abbrev pub store : Encoder → ℕ → Encoder
store e value = record e { before = e.before ++ (value ∷ []); after = drop 1 e.after }

-- The first line of each `encode`.
abbrev pub require : Encoder → ℕ → Encoder
require e size = if ltb (length e.after) size then set_error e else e

-- `(value >> k) & 0xff`
abbrev pub byte_of : ℕ → ℕ → ℕ
byte_of value k = value / 2 ^ k % 256

-- uint8_t, int8_t and char
pub encode_u8 : Encoder → ℕ → Encoder
encode_u8 e value = let e' = require e 1 in if e'.was_error then e' else store e' value

pub encode_u16 : Encoder → ℕ → Encoder
encode_u16 e value =
    let e' = require e 2 in
    if e'.was_error then e' else store (store e' (byte_of value 8)) (value % 256)

-- uint32_t, and int32_t by its two's complement
pub encode_u32 : Encoder → ℕ → Encoder
encode_u32 e value =
    let e' = require e 4 in
    if e'.was_error
    then e'
    else store (store (store (store e' (byte_of value 24)) (byte_of value 16)) (byte_of value 8))
        (value % 256)

-- uint64_t, and int64_t by its two's complement
pub encode_u64 : Encoder → ℕ → Encoder
encode_u64 e value =
    let e' = require e 8 in
    let high =
      store (store (store (store e' (byte_of value 56)) (byte_of value 48)) (byte_of value 40))
        (byte_of value 32) in
    if e'.was_error
    then e'
    else store (store (store (store high (byte_of value 24)) (byte_of value 16)) (byte_of value 8))
        (value % 256)

-- `put` of a value with its `encode`
abbrev pub put {ℓ} : {A : Type ℓ} → (Encoder → A → Encoder) → Encoder → A → Encoder
put encode e value = if e.was_error then e else encode e value

-- the loop of `put_raw`
pub store_all : Encoder → List ℕ → Encoder
store_all e [] = e
store_all e (b ∷ bs) = store_all (store e b) bs

pub put_raw : Encoder → List ℕ → Encoder
put_raw e bytes =
    let e' = require e (length bytes) in if e'.was_error then e' else store_all e' bytes
