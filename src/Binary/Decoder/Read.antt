-- ===== src/Binary/Decoder/Read.antt =====
-- What each `get` of a word in include/binary/decoder.h reads of the bytes of a word.
use libclub.Prelude.{
  ℕ, ◌^◌, ◌<◌, ◌≡◌, true, List, ◌∷◌, ◌++◌, arith, length, length-append, take-append, drop-append,
}
use libclub.Binary.Encoder.Write.{be16, be32, be64}
use libclub.Binary.Decoder.{Decoder, decoder, skip, get_u8, get_u16, get_u32, get_u64, get_raw}

pub get_u8-append : (v : ℕ) (r : List ℕ) → get_u8 (decoder (v ∷ r)) ≡ (v, decoder r)
unfolding get_u8
get_u8-append v r = ground arith

pub get_u16-append :
    (v : ℕ) (r : List ℕ) → v < 2 ^ 16 → get_u16 (decoder (be16 v ++ r)) ≡ (v, decoder r)
unfolding get_u16
get_u16-append v r h = ground arith

pub get_u32-append :
    (v : ℕ) (r : List ℕ) → v < 2 ^ 32 → get_u32 (decoder (be32 v ++ r)) ≡ (v, decoder r)
unfolding get_u32
get_u32-append v r h = ground arith

pub get_u64-append :
    (v : ℕ) (r : List ℕ) → v < 2 ^ 64 → get_u64 (decoder (be64 v ++ r)) ≡ (v, decoder r)
unfolding get_u64
get_u64-append v r h = ground arith

-- A `get` after an error, or past the end of the bytes, leaves the decoder with an error.
pub get_u8_error : (d : Decoder) → d.was_error ≡ true → (get_u8 d).1.was_error ≡ true
unfolding get_u8
get_u8_error d h = ground arith

pub get_u16_error : (d : Decoder) → d.was_error ≡ true → (get_u16 d).1.was_error ≡ true
unfolding get_u16
get_u16_error d h = ground arith

pub get_u32_error : (d : Decoder) → d.was_error ≡ true → (get_u32 d).1.was_error ≡ true
unfolding get_u32
get_u32_error d h = ground arith

pub get_u64_error : (d : Decoder) → d.was_error ≡ true → (get_u64 d).1.was_error ≡ true
unfolding get_u64
get_u64_error d h = ground arith

pub get_raw-append : (bs r : List ℕ) → get_raw (decoder (bs ++ r)) (length bs) ≡ (bs, decoder r)
unfolding get_raw
get_raw-append bs r = ground (arith, length-append bs r, take-append bs r, drop-append bs r)

pub skip-append : (bs r : List ℕ) → skip (decoder (bs ++ r)) (length bs) ≡ decoder r
unfolding skip
skip-append bs r = ground (arith, length-append bs r, drop-append bs r)
