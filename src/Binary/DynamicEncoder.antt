-- ===== src/Binary/DynamicEncoder.antt =====
-- binary::dynamic_encoder (include/binary/dynamic_encoder.h): an encoder whose buffer grows.
pub mod Agree
mod Tests
use libclub.Prelude.{
  ℕ, suc, ◌+◌, ◌-◌, ◌%◌, List, [], ◌∷◌, ◌++◌, ltb, if◌then◌else◌, length, take, drop, replicate,
}
use libclub.Binary.Encoder.{byte_of}

pub record DynamicEncoder : Type 0 where
  pub bytes : List ℕ
  pub current : ℕ

-- The constructors; `reserve` changes no contents.
abbrev pub dynamic_encoder : DynamicEncoder
dynamic_encoder = record { bytes = []; current = 0 }

abbrev pub written : DynamicEncoder → ℕ
written e = length e.bytes

-- The data that is moved out, and the encoder after that.
abbrev pub move_data : DynamicEncoder → List ℕ × DynamicEncoder
move_data e = (e.bytes, record { bytes = []; current = 0 })

-- `resize` fills up with zeros.
pub grow_to_fit : DynamicEncoder → ℕ → DynamicEncoder
grow_to_fit e size =
    if ltb (length e.bytes) (e.current + size)
    then record e { bytes = e.bytes ++ replicate (e.current + size - length e.bytes) 0 }
    else e

-- `data[current++] = value`
abbrev pub store : DynamicEncoder → ℕ → DynamicEncoder
store e value = record {
  bytes = take e.current e.bytes ++ (value ∷ drop (suc e.current) e.bytes);
  current = suc e.current;
}

-- uint8_t and char
pub encode_u8 : DynamicEncoder → ℕ → DynamicEncoder
encode_u8 e value = store (grow_to_fit e 1) value

pub encode_u16 : DynamicEncoder → ℕ → DynamicEncoder
encode_u16 e value = store (store (grow_to_fit e 2) (byte_of value 8)) (value % 256)

-- uint32_t, and int32_t by its two's complement
pub encode_u32 : DynamicEncoder → ℕ → DynamicEncoder
encode_u32 e value =
    let e' = grow_to_fit e 4 in
    store (store (store (store e' (byte_of value 24)) (byte_of value 16)) (byte_of value 8))
      (value % 256)

-- the loop of `put_raw`
pub store_all : DynamicEncoder → List ℕ → DynamicEncoder
store_all e [] = e
store_all e (b ∷ bs) = store_all (store e b) bs

pub put_raw : DynamicEncoder → List ℕ → DynamicEncoder
put_raw e bytes = store_all (grow_to_fit e (length bytes)) bytes
