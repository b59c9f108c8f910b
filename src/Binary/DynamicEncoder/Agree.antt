-- ===== src/Binary/DynamicEncoder/Agree.antt =====
-- The bytes that include/binary/dynamic_encoder.h writes, beside those of encoder.h.
use libclub.Prelude.{
  ℕ, zero, suc, ◌+◌, ◌-◌, ◌≤◌, ◌≡◌, refl, ap, ◌∙◌, false, List, [], ◌∷◌, ◌++◌, append_assoc,
  append-nil, arith, length, drop, replicate, length-append, take-append,
}
use libclub.Binary.Encoder.{Encoder, byte_of}
use libclub.Binary.Encoder
use libclub.Binary.Encoder.Write.{
  write, be16, be32, write_room, put_raw_lem, encode_u8_lem, encode_u16_lem, encode_u32_lem,
}
use libclub.Binary.DynamicEncoder.{
  DynamicEncoder, grow_to_fit, store, store_all, put_raw, encode_u8, encode_u16, encode_u32,
}

-- An encoder that stands behind all that it has written, as every constructor and operation
-- leaves it.
abbrev pub appended : List ℕ → DynamicEncoder
appended bytes = record { bytes = bytes; current = length bytes }

drop_past : (xs ys : List ℕ) (y : ℕ) → drop (suc (length xs)) (xs ++ (y ∷ ys)) ≡ ys
drop_past [] ys y = refl
drop_past (x ∷ xs) ys y = drop_past xs ys y

grow_to_fit_lem :
    (bytes : List ℕ) (size : ℕ)
    → grow_to_fit (appended bytes) size
      ≡ record { bytes = bytes ++ replicate size 0; current = length bytes }
unfolding grow_to_fit
grow_to_fit_lem bytes zero = ground (arith, append-nil bytes)
grow_to_fit_lem bytes (suc size) =
    let count : length bytes + suc size - length bytes ≡ suc size = omega arith in
    ground (arith, count)

store_all_lem :
    (bytes bs : List ℕ)
    → store_all (record { bytes = bytes ++ replicate (length bs) 0; current = length bytes }) bs
      ≡ appended (bytes ++ bs)
unfolding store_all
store_all_lem bytes [] = rw append-nil refl
store_all_lem bytes (b ∷ bs) =
    let zeros = replicate (length bs) 0 in
    let next : store (record { bytes = bytes ++ (0 ∷ zeros); current = length bytes }) b
        ≡ record { bytes = (bytes ++ (b ∷ [])) ++ zeros; current = length (bytes ++ (b ∷ [])) } =
      rw
        (
          take-append bytes (0 ∷ zeros),
          drop_past bytes zeros 0,
          length-append bytes (b ∷ []),
          append_assoc bytes (b ∷ []) zeros,
        )
        (ap (λ n. record { bytes = bytes ++ (b ∷ zeros); current = n }) (omega arith)) in
    ap (λ e. store_all e bs) next
    ∙ store_all_lem (bytes ++ (b ∷ [])) bs
    ∙ ap appended (append_assoc bytes (b ∷ []) bs)

-- `put_raw` and the encodings of integers append their bytes, the high byte of an integer first.
pub put_raw-appended : (bytes bs : List ℕ) → put_raw (appended bytes) bs ≡ appended (bytes ++ bs)
unfolding put_raw
put_raw-appended bytes bs =
    ap (λ e. store_all e bs) (grow_to_fit_lem bytes (length bs)) ∙ store_all_lem bytes bs

encode_u8-appended :
    (bytes : List ℕ) (v : ℕ) → encode_u8 (appended bytes) v ≡ appended (bytes ++ (v ∷ []))
unfolding encode_u8 put_raw store_all
encode_u8-appended bytes v = put_raw-appended bytes (v ∷ [])

encode_u16-appended :
    (bytes : List ℕ) (v : ℕ) → encode_u16 (appended bytes) v ≡ appended (bytes ++ be16 v)
unfolding encode_u16 put_raw store_all
encode_u16-appended bytes v = put_raw-appended bytes (be16 v)

encode_u32-appended :
    (bytes : List ℕ) (v : ℕ) → encode_u32 (appended bytes) v ≡ appended (bytes ++ be32 v)
unfolding encode_u32 put_raw store_all
encode_u32-appended bytes v = put_raw-appended bytes (be32 v)

-- What an encoder holds is what a dynamic one holds, and both stay so.
abbrev pub Same : Encoder → DynamicEncoder → Type 0
Same e d = (e.was_error ≡ false) × (d ≡ appended e.before)

-- From an encoder without an error and a dynamic one that hold the same bytes and stand behind
-- them, with room in the buffer for four bytes more than the given ones, each of the encodings of
-- a number in 8, 16 and 32 bits, and `put_raw` of the given bytes, leads to encoders of which the
-- same holds.
pub encode-Same :
    (e : Encoder) (d : DynamicEncoder) (v : ℕ) (bs : List ℕ)
    → Same e d
    → 4 + length bs ≤ length e.after
    → Same (Encoder.encode_u8 e v) (encode_u8 d v)
      × Same (Encoder.encode_u16 e v) (encode_u16 d v)
      × Same (Encoder.encode_u32 e v) (encode_u32 d v)
      × Same (Encoder.put_raw e bs) (put_raw d bs)
encode-Same e d v bs (ok, same) room = (
  wrote (v ∷ []) (omega arith) (encode_u8_lem e v) (rw same (encode_u8-appended e.before v)),
  wrote (be16 v) (omega arith) (encode_u16_lem e v) (rw same (encode_u16-appended e.before v)),
  wrote (be32 v) (omega arith) (encode_u32_lem e v) (rw same (encode_u32-appended e.before v)),
  wrote bs (omega arith) (put_raw_lem e bs) (rw same (put_raw-appended e.before bs)),
)
  where
    wrote :
        (l : List ℕ) {e' : Encoder} {d' : DynamicEncoder}
        → length l ≤ length e.after
        → e' ≡ write e l
        → d' ≡ appended (e.before ++ l)
        → Same e' d'
    wrote l {e'} {d'} fits we wd =
        let held : e' ≡ record e { before = e.before ++ l; after = drop (length l) e.after } =
          we ∙ write_room e l ok fits in
        rw held (ok, wd)
