-- ===== src/Binary/Codec/Words.antt =====
-- The codecs of uint8_t, uint16_t, uint32_t and uint64_t (include/binary/encoder.h and decoder.h).
use libclub.Prelude.{ℕ, ◌^◌, ◌<◌, ◌≡◌, List, [], ◌∷◌, arith}
use libclub.Binary.Encoder.{Encoder, encode_u8, encode_u16, encode_u32, encode_u64}
use libclub.Binary.Encoder
use libclub.Binary.Encoder.Write.{
  Puts, write, write_short, be16, be32, be64, encode_u8_lem, encode_u16_lem, encode_u32_lem,
  encode_u64_lem,
}
use libclub.Binary.Decoder.{get_u8, get_u16, get_u32, get_u64}
use libclub.Binary.Decoder.Read.{
  get_u8-append, get_u16-append, get_u32-append, get_u64-append, get_u8_error, get_u16_error,
  get_u32_error, get_u64_error,
}
use libclub.Binary.Codec.{Codec}

-- `put` of a word, by its `encode`.
pub Puts-put :
    (encode : Encoder → ℕ → Encoder) (bytes : ℕ → List ℕ)
    → ((e : Encoder) (v : ℕ) → encode e v ≡ write e (bytes v))
    → (v : ℕ) → Puts (λ e. Encoder.put encode e v) (bytes v)
Puts-put encode bytes whole v = record {
  room = λ e ok room. ground (arith, whole e v);
  short = λ e short. ground (arith, whole e v, write_short e (bytes v));
  error = λ e bad. ground arith;
}

abbrev pub u8_codec : Codec ℕ
u8_codec = record {
  default = 0;
  put = Encoder.put encode_u8;
  get = get_u8;
  bytes = λ v. v ∷ [];
  Fits = λ v. v < 2 ^ 8;
  puts = Puts-put encode_u8 (λ v. v ∷ []) encode_u8_lem;
  get_bytes = λ v rest fits. get_u8-append v rest;
  get_error = get_u8_error;
}

abbrev pub u16_codec : Codec ℕ
u16_codec = record {
  default = 0;
  put = Encoder.put encode_u16;
  get = get_u16;
  bytes = be16;
  Fits = λ v. v < 2 ^ 16;
  puts = Puts-put encode_u16 be16 encode_u16_lem;
  get_bytes = get_u16-append;
  get_error = get_u16_error;
}

abbrev pub u32_codec : Codec ℕ
u32_codec = record {
  default = 0;
  put = Encoder.put encode_u32;
  get = get_u32;
  bytes = be32;
  Fits = λ v. v < 2 ^ 32;
  puts = Puts-put encode_u32 be32 encode_u32_lem;
  get_bytes = get_u32-append;
  get_error = get_u32_error;
}

abbrev pub u64_codec : Codec ℕ
u64_codec = record {
  default = 0;
  put = Encoder.put encode_u64;
  get = get_u64;
  bytes = be64;
  Fits = λ v. v < 2 ^ 64;
  puts = Puts-put encode_u64 be64 encode_u64_lem;
  get_bytes = get_u64-append;
  get_error = get_u64_error;
}
