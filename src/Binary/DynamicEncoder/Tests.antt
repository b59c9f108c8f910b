-- ===== src/Binary/DynamicEncoder/Tests.antt =====
-- The result on include/binary/dynamic_encoder.h at concrete encoders.
use libclub.Prelude.{refl, [], ◌∷◌, arith, replicate}
use libclub.Binary.Encoder
use libclub.Binary.Encoder.{Encoder, encoder}
use libclub.Binary.DynamicEncoder.{dynamic_encoder, put_raw, encode_u8, encode_u16, encode_u32}
use libclub.Binary.DynamicEncoder.Agree.{Same, encode-Same}

encode-Same_example :
    Same (Encoder.encode_u8 (encoder (replicate 9 0)) 7) (encode_u8 dynamic_encoder 7)
    × Same (Encoder.encode_u16 (encoder (replicate 9 0)) 7) (encode_u16 dynamic_encoder 7)
    × Same (Encoder.encode_u32 (encoder (replicate 9 0)) 7) (encode_u32 dynamic_encoder 7)
    × Same
        (Encoder.put_raw (encoder (replicate 9 0)) (1 ∷ 2 ∷ []))
        (put_raw dynamic_encoder (1 ∷ 2 ∷ []))
encode-Same_example =
    encode-Same (encoder (replicate 9 0)) dynamic_encoder 7 (1 ∷ 2 ∷ []) (refl, refl) (omega arith)
