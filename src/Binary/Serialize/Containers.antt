-- ===== src/Binary/Serialize/Containers.antt =====
-- include/binary/serialize: list.h, string.h, set.h, map.h, flat_set.h, flat_map.h, uuid.h and ip.h.
-- An ordered container is the list of its items in its order, a map that of its pairs.
pub mod Ascending
mod Tests
use libclub.Prelude.{
  ℕ, zero, suc, ◌^◌, Bool, true, false, List, [], ◌∷◌, ltb, if◌then◌else◌, length,
}
use libclub.Binary.Encoder.{Encoder}
use libclub.Binary.Encoder
use libclub.Binary.Decoder.{Decoder, set_error}
use libclub.Binary.Decoder
use libclub.Binary.Codec.{Codec}
use libclub.Binary.Codec.Words.{u8_codec, u32_codec}
use libclub.Binary.Serialize.{put_items, get_items}
use libclub.Binary.Serialize.Laws.{pair_codec}

-- The first lines of each `decode` of a sequence: the error, the count and its bound.
abbrev pub counted {ℓ} : {A : Type ℓ} → A → (Decoder → ℕ → A × Decoder) → Decoder → ℕ → A × Decoder
counted default items d bound =
    let (size, d1) = u32_codec.get d in
    if d.was_error
    then (default, d)
    else if ltb bound size
    then (default, set_error d1)
    else items d1 size

module _ {A : Type 0} (codec : Codec A) where
  pub encode_list : Encoder → List A → Encoder
  encode_list e list = put_items codec (u32_codec.put e (length list)) list

  pub decode_list : Decoder → ℕ → List A × Decoder
  decode_list d bound = counted [] (get_items codec) d bound

  pub encode_set : Encoder → List A → Encoder
  encode_set e set = put_items codec (u32_codec.put e (length set)) set

  abbrev pub encode_flat_set : Encoder → List A → Encoder
  encode_flat_set e set = put_items codec (u32_codec.put e (length set)) set

  -- std::set: `lt` is the order of the items.
  module _ (lt : A → A → Bool) where
    -- `insert`: an item that is there already stays.
    pub insert : A → List A → List A
    insert item [] = item ∷ []
    insert item (first ∷ rest) =
        let below = insert item rest in
        if lt first item
        then first ∷ below
        else if lt item first
        then item ∷ first ∷ rest
        else first ∷ rest

    pub get_set_items : List A → Decoder → ℕ → List A × Decoder
    get_set_items set d zero = (set, d)
    get_set_items set d (suc size) =
        let (value, d1) = codec.get d in
        let set' = insert value set in
        let rest = get_set_items set' d1 size in if d1.was_error then (set', d1) else rest

    pub decode_set : Decoder → ℕ → List A × Decoder
    decode_set d bound = counted [] (get_set_items []) d bound

    -- boost::container::flat_set: an item that was not read is not inserted.
    pub get_flat_items : List A → Decoder → ℕ → List A × Decoder
    get_flat_items set d zero = (set, d)
    get_flat_items set d (suc size) =
        let (value, d1) = codec.get d in
        let rest = get_flat_items (insert value set) d1 size in
        if d1.was_error then (set, d1) else rest

    pub decode_flat_set : Decoder → ℕ → List A × Decoder
    decode_flat_set d bound = counted [] (get_flat_items []) d bound

-- std::string
abbrev pub encode_string : Encoder → List ℕ → Encoder
encode_string = encode_list u8_codec

abbrev pub decode_string : Decoder → ℕ → List ℕ × Decoder
decode_string = decode_list u8_codec

-- std::map and boost::container::flat_map, whose pairs are ordered by their keys.
module _ {K V : Type 0} (key : Codec K) (value : Codec V) where
  abbrev pub encode_map : Encoder → List (K × V) → Encoder
  encode_map = encode_set (pair_codec key value)

  abbrev pub encode_flat_map : Encoder → List (K × V) → Encoder
  encode_flat_map = encode_flat_set (pair_codec key value)

  abbrev pub by_key : (K → K → Bool) → K × V → K × V → Bool
  by_key lt p q = lt p.0 q.0

  abbrev pub decode_map : (K → K → Bool) → Decoder → ℕ → List (K × V) × Decoder
  decode_map lt = decode_set (pair_codec key value) (by_key lt)

  abbrev pub decode_flat_map : (K → K → Bool) → Decoder → ℕ → List (K × V) × Decoder
  decode_flat_map lt = decode_flat_set (pair_codec key value) (by_key lt)

-- The bytes of a uuid, each put and got by itself.
pub encode_uuid : Encoder → List ℕ → Encoder
encode_uuid e uuid = put_items u8_codec e uuid

pub decode_uuid : Decoder → ℕ → List ℕ × Decoder
decode_uuid d zero = ([], d)
decode_uuid d (suc n) =
    let (i, d1) = u8_codec.get d in let (uuid, d2) = decode_uuid d1 n in (i ∷ uuid, d2)

-- The addresses of IP: a number for version 4, and bytes for version 6.
abbrev pub encode_address_v4 : Encoder → ℕ → Encoder
encode_address_v4 e addr = u32_codec.put e addr

abbrev pub decode_address_v4 : Decoder → ℕ × Decoder
decode_address_v4 d = u32_codec.get d

abbrev pub encode_address_v6 : Encoder → List ℕ → Encoder
encode_address_v6 e bytes = Encoder.put_raw e bytes

abbrev pub decode_address_v6 : Decoder → List ℕ × Decoder
decode_address_v6 d = Decoder.get_raw d 16
