-- ===== src/Binary/Serialize.antt =====
-- include/binary/serialize: the encodings of pairs, optional values and sequences, over those of
-- their parts. Where the source's `decode` leaves its argument alone, the default value stays.
pub mod Laws
pub mod Sequence
pub mod Containers
pub mod Roundtrip
mod Tests
use libclub.Prelude.{
  ℕ, zero, suc, ◌-◌, ◌^◌, Bool, true, false, List, [], ◌∷◌, Option, none, some, ◌==◌, ltb,
  if◌then◌else◌, length,
}
use libclub.Binary.Encoder.{Encoder}
use libclub.Binary.Encoder
use libclub.Binary.Decoder.{Decoder, set_error}
use libclub.Binary.Codec.{Codec}
use libclub.Binary.Codec.Words.{u8_codec, u32_codec}

-- `numeric_limits<uint32_t>::max()`, the default bound on a sequence.
abbrev pub max_size : ℕ
max_size = 2 ^ 32 - 1

module _ {A B : Type 0} (a_codec : Codec A) (b_codec : Codec B) where
  pub encode_pair : Encoder → A × B → Encoder
  encode_pair e (first, second) = b_codec.put (a_codec.put e first) second

  pub decode_pair : Decoder → (A × B) × Decoder
  decode_pair d =
      let (first, d1) = a_codec.get d in
      let (second, d2) = b_codec.get d1 in
      if d.was_error
      then ((a_codec.default, b_codec.default), d)
      else if d1.was_error
      then ((first, b_codec.default), d1)
      else ((first, second), d2)

module _ {A : Type 0} (codec : Codec A) where
  pub encode_optional : Encoder → Option A → Encoder
  encode_optional e none = u8_codec.put e 0
  encode_optional e (some value) = codec.put (u8_codec.put e 1) value

  pub decode_optional : Decoder → Option A × Decoder
  decode_optional d =
      let (flag, d1) = u8_codec.get d in
      let (value, d2) = codec.get d1 in
      if d.was_error
      then (none, d)
      else if flag == 0
      then (none, d1)
      else if d1.was_error
      then (none, d1)
      else (some value, d2)

  -- the loops over the items of std::vector, std::list and std::string
  pub put_items : Encoder → List A → Encoder
  put_items e [] = e
  put_items e (item ∷ items) = put_items (codec.put e item) items

  pub get_items : Decoder → ℕ → List A × Decoder
  get_items d zero = ([], d)
  get_items d (suc size) =
      let (item, d1) = codec.get d in
      let (items, d2) = get_items d1 size in
      if d1.was_error then (item ∷ [], d1) else (item ∷ items, d2)

  pub encode_vector : Encoder → List A → Encoder
  encode_vector e vector = put_items (u32_codec.put e (length vector)) vector

  pub decode_vector : Decoder → ℕ → List A × Decoder
  decode_vector d bound =
      let (size, d1) = u32_codec.get d in
      if d.was_error
      then ([], d)
      else if ltb bound size
      then ([], set_error d1)
      else get_items d1 size
